-- ===== src/Preferences/Justified.antt =====
-- Every preference command keeps the inferred preferences justified.
use venture_capital_lead_res.Prelude.{ℕ, ◌≡◌, refl, String, List, [], ◌∷◌, arith}
use venture_capital_lead_res.Fail.{Result, ok, err, ok_of}
use venture_capital_lead_res.Json.{argument}
use venture_capital_lead_res.Validate.Checks.{require_text}
use venture_capital_lead_res.Trust.Uses.{Store, consume_trusted_context}
use venture_capital_lead_res.Preferences.Rows.{Observation, Preference, Book}
use venture_capital_lead_res.Preferences.Handlers.{
  Gate, preference_value, payload_of, verified, ObserveArgs, Observed, record_observation,
  cmd_preference_observe, ForgetArgs, forget, cmd_preference_forget, cmd_preference_lookup,
  append_text,
}
use venture_capital_lead_res.Preferences.Evidence.{
  AllJustified, record_observation-Justified, forget-Justified,
}

cmd_preference_observe-Justified :
    (g : Gate) (args : ObserveArgs) (b b' : Book) (reply : Observed)
    → AllJustified b
    → cmd_preference_observe g args b ≡ ok (reply, b')
    → AllJustified b'
unfolding cmd_preference_observe
cmd_preference_observe-Justified g args b b' reply h done =
    let ((key, value), chosen) =
      ok_of (preference_value args.preference_key args.preference_value) (λ e r. ground arith) in
    let (context, given) =
      ok_of (verified g b.clock args.trusted_context "preference.write") (λ e r. ground arith) in
    let (operation, named) =
      ok_of (require_text (argument args.idempotency_key) 300) (λ e r. ground arith) in
    let ((who, trust), used) =
      ok_of (consume_trusted_context (payload_of context) "preference.write" operation b.trust)
        (λ e r. ground arith) in
    let o : Observation = record {
      principal_id = who;
      preference_key = key;
      preference_value = value;
      observation_kind = args.observation_kind;
      event_id = (payload_of context).event_id;
      created_at = b.clock;
    } in
    let same : (record_observation o (record b { trust = trust })).1 ≡ b' = ground arith in
    rw (← same) (record_observation-Justified o (record b { trust = trust }) h)

-- What a successful forgetting comes to, for the principal whose context was consumed.
pub cmd_preference_forget-forget :
    (g : Gate) (args : ForgetArgs) (b b' : Book) (reply : List String)
    → cmd_preference_forget g args b ≡ ok (reply, b')
    → (who : ℕ) × (trust : Store) × (event : String) × (b'
        ≡ forget who event args.preference_key (record b { trust = trust }))
unfolding cmd_preference_forget
cmd_preference_forget-forget g args b b' reply done =
    let (context, given) =
      ok_of (verified g b.clock args.trusted_context "preference.forget") (λ e r. ground arith) in
    let (operation, named) =
      ok_of (require_text (argument args.idempotency_key) 300) (λ e r. ground arith) in
    let ((who, trust), used) =
      ok_of (consume_trusted_context (payload_of context) "preference.forget" operation b.trust)
        (λ e r. ground arith) in
    (who, trust, (payload_of context).event_id, ground arith)

cmd_preference_forget-Justified :
    (g : Gate) (args : ForgetArgs) (b b' : Book) (reply : List String)
    → AllJustified b
    → cmd_preference_forget g args b ≡ ok (reply, b')
    → AllJustified b'
cmd_preference_forget-Justified g args b b' reply h done =
    let (who, trust, event, same) = cmd_preference_forget-forget g args b b' reply done in
    rw same (forget-Justified who event args.preference_key (record b { trust = trust }) h)

pub data Command : Type 0 where
  preference_lookup : String → Command
  preference_observe : ObserveArgs → Command
  preference_forget : ForgetArgs → Command

-- An error rolls the transaction back.
abbrev pub after {ℓ} : {A : Type ℓ} → Result (A × Book) → Book → Book
after (ok (reply, b')) b = b'
after (err e) b = b

unfoldable pub run_command : Gate → Command → Book → Book
run_command g (preference_lookup token) b = after (cmd_preference_lookup g token b) b
run_command g (preference_observe args) b = after (cmd_preference_observe g args b) b
run_command g (preference_forget args) b = after (cmd_preference_forget g args b) b

unfoldable pub serve : Gate → Book → List (ℕ × Command) → Book
serve g b [] = b
serve g b ((now, c) ∷ rest) = serve g (run_command g c (record b { clock = now })) rest

after-Justified :
    {A : Type 0} (m : Result (A × Book)) (b : Book)
    → AllJustified b
    → ((a : A) (b' : Book) → m ≡ ok (a, b') → AllJustified b')
    → AllJustified (after m b)
after-Justified (ok (a, b')) b h step = step a b' refl
after-Justified (err e) b h step = h

cmd_preference_lookup-Justified :
    (g : Gate) (token : String) (b b' : Book) (reply : List Preference)
    → AllJustified b
    → cmd_preference_lookup g token b ≡ ok (reply, b')
    → AllJustified b'
unfolding cmd_preference_lookup
cmd_preference_lookup-Justified g token b b' reply h done =
    let (context, given) =
      ok_of (verified g b.clock token "preference.read") (λ e r. ground arith) in
    let ((who, trust), used) =
      ok_of
        (consume_trusted_context (payload_of context) "preference.read"
          (append_text "preference-lookup:" (payload_of context).event_id) b.trust)
        (λ e r. ground arith) in
    let same : record b { trust = trust } ≡ b' = ground arith in rw (← same) h

run_command-Justified :
    (g : Gate) (c : Command) (b : Book) → AllJustified b → AllJustified (run_command g c b)
unfolding run_command
run_command-Justified g (preference_lookup token) b h =
    after-Justified (cmd_preference_lookup g token b) b h
      (λ reply b'. cmd_preference_lookup-Justified g token b b' reply h)
run_command-Justified g (preference_observe args) b h =
    after-Justified (cmd_preference_observe g args b) b h
      (λ reply b'. cmd_preference_observe-Justified g args b b' reply h)
run_command-Justified g (preference_forget args) b h =
    after-Justified (cmd_preference_forget g args b) b h
      (λ reply b'. cmd_preference_forget-Justified g args b b' reply h)

-- Whatever preference commands run, at whatever times: if each active inferred preference counts
-- three observations or more and shows at least as many different events that were observed since
-- its key was last forgotten, it is so again after them.
pub serve-Justified :
    (g : Gate) (script : List (ℕ × Command)) (b : Book)
    → AllJustified b
    → AllJustified (serve g b script)
unfolding serve
serve-Justified g [] b h = h
serve-Justified g ((now, c) ∷ rest) b h =
    serve-Justified g rest (run_command g c (record b { clock = now }))
      (run_command-Justified g c (record b { clock = now }) h)
