-- ===== src/Tests/Preferences.antt =====
-- A learned preference at concrete observations.
use venture_capital_lead_res.Prelude.{ℕ, ◌≡◌, refl, String, false, some, List, [], ◌∷◌, arith}
use venture_capital_lead_res.Json.{pos, boolean, int, str, arr, obj, nil, cons, Fields, field, end}
use venture_capital_lead_res.Preferences.Rows.{
  inferred, Observation, active, Preference, Book, last_forgotten, supports, supporting_events,
  count_distinct, evidence,
}
use venture_capital_lead_res.Preferences.Handlers.{Gate, forget}
use venture_capital_lead_res.Preferences.Evidence.{AllJustified, Justified}
use venture_capital_lead_res.Preferences.Justified.{
  Command, preference_observe, preference_forget, serve, serve-Justified,
}
use venture_capital_lead_res.Preferences.Forgotten.{forget-evidence}

abbrev payload : Fields
payload = field "v" (int (pos 1)) (
    field "nonce" (str "0123456789abcdef0123456789abcdef0123456789abcdef") (
      field "iat" (int (pos 90)) (
        field "exp" (int (pos 600)) (
          field "provider" (str "slack") (
            field "account_id" (str "a") (
              field "conversation_id" (str "") (
                field "sender_id" (str "s") (
                  field "session_hash"
                    (str "0123456789abcdef0123456789abcdef0123456789abcdef0123456789abcdef")
                    (field "run_id" (str "r") (
                      field "event_id" (str "e4") (
                        field "is_group" (boolean false) (
                          field "media_paths" (arr nil) (
                            field "scopes"
                              (arr (
                                cons (str "preference.write") (cons (str "preference.forget") nil)))
                              end)))))))))))))

abbrev gate : Gate
gate = record {
  sign = λ encoded. "bb";
  load = λ encoded. some (obj payload);
  key_length = some 32;
  relative_parts = λ path. some (path ∷ []);
  unit = 1;
}

abbrev observed : String → ℕ → Observation
observed event at = record {
  principal_id = 1;
  preference_key = "memo_length";
  preference_value = "short";
  observation_kind = inferred;
  event_id = event;
  created_at = at;
}

abbrev learned : Preference
learned = record {
  principal_id = 1;
  preference_key = "memo_length";
  preference_value = some "short";
  source_kind = some inferred;
  evidence_count = 3;
  status = active;
  source_event_id = some "e3";
}

abbrev book : Book
book = record {
  trust = record {
    next_id = 2;
    principals = record { id = 1; provider = "slack"; account_id = "a"; sender_id = "s" } ∷ [];
    uses = [];
  };
  observations = observed "e3" 30 ∷ observed "e2" 20 ∷ observed "e1" 10 ∷ [];
  preferences = learned ∷ [];
  markers = [];
  clock = 100;
}

learned-Justified : Justified [] book.observations learned
unfolding Justified supporting_events supports last_forgotten count_distinct
learned-Justified live kind = record {
  value = "short";
  has_value = refl;
  enough = ground arith;
  counted = ground arith;
}

abbrev script : List (ℕ × Command)
script =
    (
      100,
      preference_observe (record {
        preference_key = some "memo_length";
        preference_value = some "standard";
        trusted_context = "aa.bb";
        observation_kind = inferred;
        idempotency_key = some "k1";
      }),
    )
    ∷ (
      101,
      preference_forget (record {
        trusted_context = "aa.bb";
        preference_key = some "memo_length";
        idempotency_key = some "k2";
      }),
    )
    ∷ []

serve-Justified_example : AllJustified (serve gate book script)
serve-Justified_example = serve-Justified gate script book (learned-Justified, tt)

forget-evidence_example :
    evidence 1 "memo_length" "short" inferred (forget 1 "e4" (some "memo_length") book) ≡ 0
forget-evidence_example =
    forget-evidence 1 "e4" "memo_length" "short" inferred (some "memo_length") book refl refl
      (refl, (refl, (refl, tt)))
