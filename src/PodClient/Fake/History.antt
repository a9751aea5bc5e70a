-- ===== src/PodClient/Fake/History.antt =====
-- What FakeClient reports after a history of calls.
use gpu_lease.Common.{
  ◌≡◌, refl, sym, ap, ◌∙◌, String, Option, none, some, Bool-cases, inl, inr, List, [], ◌∷◌, ◌++◌,
  append-nil, append_assoc, Map, str_eq, eq_iff, arith, if◌then◌else◌,
}
use gpu_lease.PodClient.{ActivateRequest, PodError}
use gpu_lease.PodClient.Fake.{
  FakeClient, ActivateRequestCall, set_state, injected, unless_injected, fake_activate,
  fake_release, reported_hot, reported_warm,
}

pub data FakeCall : Type 0 where
  sets : (pod_ip state : String) → FakeCall
  activates : (pod_ip : String) → ActivateRequest → FakeCall
  releases : (pod_ip : String) → FakeCall

unfoldable pub call : FakeClient → FakeCall → FakeClient
unfolding set_state fake_activate fake_release
call f (sets pod_ip state) = set_state f pod_ip state
call f (activates pod_ip req) = (fake_activate f pod_ip req).1
call f (releases pod_ip) = (fake_release f pod_ip).1

unfoldable pub call_all : FakeClient → List FakeCall → FakeClient
unfolding call
call_all f [] = f
call_all f (c ∷ cs) = call_all (call f c) cs

-- The state that a call for the pod gives it, unless an error is injected.
unfoldable pub given_unless : Option PodError → String → Option String
given_unless none state = some state
given_unless (some e) state = none

unfoldable pub given :
    (activate_err release_err : Map (Option PodError)) → String → FakeCall → Option String
unfolding given_unless
given ae re ip (sets pod_ip state) = if str_eq pod_ip ip then some state else none
given ae re ip (activates pod_ip req) =
    if str_eq pod_ip ip then given_unless (injected ae ip) reported_hot else none
given ae re ip (releases pod_ip) =
    if str_eq pod_ip ip then given_unless (injected re ip) reported_warm else none

unfoldable pub or_else : Option String → Option String → Option String
or_else (some s) o = some s
or_else none o = o

-- What the last call that gave the pod a state gave it.
unfoldable pub last_given :
    (activate_err release_err : Map (Option PodError)) → String → List FakeCall → Option String
unfolding given or_else
last_given ae re ip [] = none
last_given ae re ip (c ∷ cs) = or_else (last_given ae re ip cs) (given ae re ip c)

unfoldable pub activated : List FakeCall → List ActivateRequestCall
activated [] = []
activated (activates pod_ip req ∷ cs) = record { pod_ip = pod_ip; request = req } ∷ activated cs
activated (sets pod_ip state ∷ cs) = activated cs
activated (releases pod_ip ∷ cs) = activated cs

unfoldable pub released : List FakeCall → List String
released [] = []
released (releases pod_ip ∷ cs) = pod_ip ∷ released cs
released (sets pod_ip state ∷ cs) = released cs
released (activates pod_ip req ∷ cs) = released cs

or_else_assoc : (a b c : Option String) → or_else a (or_else b c) ≡ or_else (or_else a b) c
unfolding or_else
or_else_assoc none b c = refl
or_else_assoc (some s) b c = refl

-- What a call changes.
record Changes (f : FakeClient) (c : FakeCall) (f' : FakeClient) : Type 0 where
  pods : (ip : String) → f'.pods ip ≡ or_else (given f.activate_err f.release_err ip c) (f.pods ip)
  activate_err : f'.activate_err ≡ f.activate_err
  release_err : f'.release_err ≡ f.release_err
  activate_calls : f'.activate_calls ≡ f.activate_calls ++ activated (c ∷ [])
  release_calls : f'.release_calls ≡ f.release_calls ++ released (c ∷ [])

-- The state of a pod after a call for `target`.
after_call :
    (o o' : Option PodError) (f : FakeClient) (target ip state : String)
    → (target ≡ ip → o ≡ o')
    → (unless_injected o f target state).pods ip
      ≡ or_else (if str_eq target ip then given_unless o' state else none) (f.pods ip)
unfolding unless_injected set_state or_else given_unless
after_call none none f target ip state h = ground arith
after_call none (some x) f target ip state h = elim (Bool-cases (str_eq target ip)) [
  | inl e ↦ absurd (grind (arith, h ((eq_iff target ip).0 e)))
  | inr e ↦ rw e refl
]
after_call (some y) none f target ip state h = elim (Bool-cases (str_eq target ip)) [
  | inl e ↦ absurd (grind (arith, h ((eq_iff target ip).0 e)))
  | inr e ↦ rw e refl
]
after_call (some y) (some x) f target ip state h = ground arith

kept_logs :
    (o : Option PodError) (f : FakeClient) (target state : String)
    → ((unless_injected o f target state).activate_err ≡ f.activate_err)
      × ((unless_injected o f target state).release_err ≡ f.release_err)
      × ((unless_injected o f target state).activate_calls ≡ f.activate_calls)
      × ((unless_injected o f target state).release_calls ≡ f.release_calls)
unfolding unless_injected set_state
kept_logs none f target state = (refl, refl, refl, refl)
kept_logs (some e) f target state = (refl, refl, refl, refl)

call-Changes : (f : FakeClient) (c : FakeCall) → Changes f c (call f c)
unfolding call set_state unless_injected fake_activate fake_release given given_unless activated
    released
call-Changes f (sets pod_ip state) = record {
  pods = λ ip. after_call none none f pod_ip ip state (λ e. refl);
  activate_err = refl;
  release_err = refl;
  activate_calls = sym (append-nil f.activate_calls);
  release_calls = sym (append-nil f.release_calls);
}
call-Changes f (activates pod_ip req) =
    let (a, r, x, y) = kept_logs (injected f.activate_err pod_ip) _ pod_ip reported_hot in
    record {
      pods = λ ip.
          after_call (injected f.activate_err pod_ip) (injected f.activate_err ip) _ pod_ip ip
            reported_hot (ap (injected f.activate_err));
      activate_err = a;
      release_err = r;
      activate_calls = x;
      release_calls = y ∙ sym (append-nil f.release_calls);
    }
call-Changes f (releases pod_ip) =
    let (a, r, x, y) = kept_logs (injected f.release_err pod_ip) _ pod_ip reported_warm in
    record {
      pods = λ ip.
          after_call (injected f.release_err pod_ip) (injected f.release_err ip) _ pod_ip ip
            reported_warm (ap (injected f.release_err));
      activate_err = a;
      release_err = r;
      activate_calls = x ∙ sym (append-nil f.activate_calls);
      release_calls = y;
    }

activated_cons :
    (c : FakeCall) (cs : List FakeCall) → activated (c ∷ cs) ≡ activated (c ∷ []) ++ activated cs
unfolding activated
activated_cons (sets pod_ip state) cs = refl
activated_cons (activates pod_ip req) cs = refl
activated_cons (releases pod_ip) cs = refl

released_cons :
    (c : FakeCall) (cs : List FakeCall) → released (c ∷ cs) ≡ released (c ∷ []) ++ released cs
unfolding released
released_cons (sets pod_ip state) cs = refl
released_cons (activates pod_ip req) cs = refl
released_cons (releases pod_ip) cs = refl

-- Records of a call and of the calls after it.
joined :
    {A : Type 0}
    → (later before mid old first rest : List A) → later ≡ mid ++ rest
    → mid ≡ old ++ first
    → before ≡ first ++ rest
    → later ≡ old ++ before
joined later before mid old first rest e f g =
    e ∙ ap (λ l. l ++ rest) f ∙ append_assoc old first rest ∙ ap (λ l. old ++ l) (sym g)

-- After any calls of FakeClient: a pod has the state that the last SetState, or the last Activate or
-- Release without an injected error, gave it, and what it had before if there was none; and the calls
-- of Activate and of Release are recorded in their order, those with an injected error too.
pub call_all_history :
    (cs : List FakeCall) (f : FakeClient) (ip : String)
    → ((call_all f cs).pods ip
        ≡ or_else (last_given f.activate_err f.release_err ip cs) (f.pods ip))
      × ((call_all f cs).activate_calls ≡ f.activate_calls ++ activated cs)
      × ((call_all f cs).release_calls ≡ f.release_calls ++ released cs)
unfolding call_all last_given or_else activated released
call_all_history [] f ip =
    (refl, sym (append-nil f.activate_calls), sym (append-nil f.release_calls))
call_all_history (c ∷ cs) f ip =
    let (p, a, r) = call_all_history cs (call f c) ip in
    let ch : Changes f c (call f c) = call-Changes f c in
    (
      p
          ∙ ap (λ m. or_else (last_given m (call f c).release_err ip cs) ((call f c).pods ip))
              ch.activate_err
          ∙ ap (λ m. or_else (last_given f.activate_err m ip cs) ((call f c).pods ip))
              ch.release_err
          ∙ ap (or_else (last_given f.activate_err f.release_err ip cs)) (ch.pods ip)
          ∙ or_else_assoc (last_given f.activate_err f.release_err ip cs) _ (f.pods ip),
      joined _ _ _ f.activate_calls _ _ a ch.activate_calls (activated_cons c cs),
      joined _ _ _ f.release_calls _ _ r ch.release_calls (released_cons c cs),
    )
