-- ===== src/Runs/Evolution.antt =====
-- How a table of runs may change: row by row along legal steps, with new rows that began queued.
use venture_capital_lead_res.Prelude.{
  String, ◌≡◌, none, some, List, [], ◌∷◌, ◌++◌, All, arith, Bool-cases, inl, inr,
}
use venture_capital_lead_res.Runs.Status.{queued}
use venture_capital_lead_res.Runs.Rows.{Run, has_run_id, find_run, replace_run}
use venture_capital_lead_res.Runs.Edges.{LegalStep}

pub data Reaches (r : Run) : Run → Type 0 where
  here : Reaches r r
  next : {s t : Run} → Reaches r s → LegalStep s t → Reaches r t

-- A row as the INSERT of `workflow-start` writes it.
pub record IsFresh (r : Run) : Type 0 where
  pub status : r.status ≡ queued
  pub version : r.record_version ≡ 1
  pub attempt : r.attempt ≡ 1
  pub cancel : r.cancel_requested_at ≡ none
  pub finished : r.finished_at ≡ none

abbrev pub Begun : Run → Type 0
Begun s = (r : Run) × IsFresh r × Reaches r s

-- Rows keep their place, and each has reached its new contents; rows are only added.
abbrev pub Evolves : List Run → List Run → Type 0
Evolves [] news = All Begun news
Evolves (r ∷ rs) [] = ⊥
Evolves (r ∷ rs) (s ∷ ss) = Reaches r s × Evolves rs ss

pub Reaches-trans : {r s t : Run} → Reaches r s → Reaches s t → Reaches r t
Reaches-trans p here = p
Reaches-trans p (next q st) = next (Reaches-trans p q) st

pub Evolves-refl : (rs : List Run) → Evolves rs rs
Evolves-refl [] = tt
Evolves-refl (r ∷ rs) = (here, Evolves-refl rs)

All-Begun-Evolves : (rs ss : List Run) → All Begun rs → Evolves rs ss → All Begun ss
All-Begun-Evolves [] ss h e = e
All-Begun-Evolves (r ∷ rs) [] h e = absurd e
All-Begun-Evolves (r ∷ rs) (s ∷ ss) ((r0, f, p), h) (q, e) =
    ((r0, f, Reaches-trans p q), All-Begun-Evolves rs ss h e)

pub Evolves-trans : (rs ss ts : List Run) → Evolves rs ss → Evolves ss ts → Evolves rs ts
Evolves-trans [] ss ts e f = All-Begun-Evolves ss ts e f
Evolves-trans (r ∷ rs) [] ts e f = absurd e
Evolves-trans (r ∷ rs) (s ∷ ss) [] e f = absurd f
Evolves-trans (r ∷ rs) (s ∷ ss) (t ∷ ts) (p, e) (q, f) =
    (Reaches-trans p q, Evolves-trans rs ss ts e f)

pub Evolves-append : (rs : List Run) (r : Run) → IsFresh r → Evolves rs (rs ++ r ∷ [])
Evolves-append [] r f = ((r, f, here), tt)
Evolves-append (s ∷ rs) r f = (here, Evolves-append rs r f)

-- The row that a look-up finds is the row that the update replaces.
pub Evolves-replace_run :
    (run_id : String) (rs : List Run) (r s : Run)
    → find_run run_id rs ≡ some r
    → LegalStep r s
    → Evolves rs (replace_run run_id s rs)
unfolding find_run replace_run
Evolves-replace_run run_id [] r s h st = cc
Evolves-replace_run run_id (q ∷ rs) r s h st = elim (Bool-cases (has_run_id run_id q)) [
  | inl this ↦
      let same : r ≡ q = ground arith in rw this (next here (rw same at st), Evolves-refl rs)
  | inr other ↦ rw other (here, Evolves-replace_run run_id rs r s (ground arith) st)
]
