-- ===== src/Facts/Periods.antt =====
-- The period of a fact and what it gives under two names.
use Prim.Native.String.{compare}
use Prim.Native.Nat.{lt}
use venture_capital_lead_res.Prelude.{◌≡◌, ◌≢◌, refl, sym, String, false, Option, none, some, arith}
use venture_capital_lead_res.Facts.Classify.{
  Fact, before, ordered_bounds, bounds_of, period_bounds, aliased,
}

-- The text that a fact gives under the first of two names, or else under the second.
pub data Gives (f : Fact) (names : String × String) : String → Type 0 where
  by_first : (t : String) → f.field names.0 ≡ some t → Gives f names t
  by_second : (t : String) → f.field names.0 ≡ none → f.field names.1 ≡ some t → Gives f names t

abbrev pub Omits : Fact → String × String → Type 0
Omits f names = (f.field names.0 ≡ none) × (f.field names.1 ≡ none)

-- The period of a fact: its two bounds, in order, or the one that it has.
pub data HasPeriod (f : Fact) : String → String → Type 0 where
  two_bounds :
      (start finish : String)
      → Gives f ("period_start", "valid_from") start
      → Gives f ("period_end", "valid_to") finish
      → compare finish start ≢ lt
      → HasPeriod f start finish
  only_start :
      (start : String)
      → Gives f ("period_start", "valid_from") start
      → Omits f ("period_end", "valid_to")
      → HasPeriod f start start
  only_finish :
      (finish : String)
      → Omits f ("period_start", "valid_from")
      → Gives f ("period_end", "valid_to") finish
      → HasPeriod f finish finish

pub aliased-Gives :
    (f : Fact) (names : String × String) (t : String) → aliased f names ≡ some t → Gives f names t
aliased-Gives f names t h = by_field (f.field names.0) refl
  where
    by_field : (given : Option String) → f.field names.0 ≡ given → Gives f names t
    by_field (some s) e = by_first t (ground arith)
    by_field none e = by_second t e (ground arith)

pub Gives-aliased :
    (f : Fact) (names : String × String) (t : String) → Gives f names t → aliased f names ≡ some t
Gives-aliased f names given (by_first t p) = rw p refl
Gives-aliased f names given (by_second t p q) = rw p q

aliased-Omits : (f : Fact) (names : String × String) → aliased f names ≡ none → Omits f names
aliased-Omits f names h = by_field (f.field names.0) refl
  where
    by_field : (given : Option String) → f.field names.0 ≡ given → Omits f names
    by_field (some s) e = absurd (ground arith)
    by_field none e = (e, ground arith)

pub before-not : (s t : String) → before s t ≡ false → compare s t ≢ lt
unfolding before
before-not s t h e = ground arith

pub period_bounds-HasPeriod :
    (f : Fact) (start finish : String)
    → period_bounds f ≡ some (start, finish)
    → HasPeriod f start finish
unfolding period_bounds bounds_of ordered_bounds
period_bounds-HasPeriod f start finish h =
    by_bounds (aliased f ("period_start", "valid_from")) refl (aliased f ("period_end", "valid_to"))
      refl
  where
    by_bounds :
        (from : Option String)
        → aliased f ("period_start", "valid_from") ≡ from
        → (to : Option String) → aliased f ("period_end", "valid_to") ≡ to
        → HasPeriod f start finish
    by_bounds none p none q = absurd (ground arith)
    by_bounds none p (some t) q =
        let begun : t ≡ start = ground arith in
        let ended : t ≡ finish = ground arith in
        rw (sym begun, sym ended)
          (only_finish t (aliased-Omits f ("period_start", "valid_from") p)
            (aliased-Gives f ("period_end", "valid_to") t q))
    by_bounds (some s) p none q =
        let begun : s ≡ start = ground arith in
        let ended : s ≡ finish = ground arith in
        rw (sym begun, sym ended)
          (only_start s (aliased-Gives f ("period_start", "valid_from") s p)
            (aliased-Omits f ("period_end", "valid_to") q))
    by_bounds (some s) p (some t) q =
        let begun : s ≡ start = ground arith in
        let ended : t ≡ finish = ground arith in
        let ordered : before t s ≡ false = ground arith in
        rw (sym begun, sym ended)
          (two_bounds s t (aliased-Gives f ("period_start", "valid_from") s p)
            (aliased-Gives f ("period_end", "valid_to") t q) (before-not t s ordered))
