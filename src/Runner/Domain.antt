-- ===== src/Runner/Domain.antt =====
-- The company domain that vcrun.py normalises is in normal form.
use venture_capital_lead_res.Prelude.{
  ℕ, ◌≡◌, refl, sym, ap, ◌∙◌, ◌⊎◌, inl, inr, String, code, Bool, true, false, not, ◌&&◌, ◌||◌, List,
  [], ◌∷◌, is_blank, all_chars, is_space, strip, lstrip, rstrip, leb, ◌==◌, arith, Bool-cases,
}
use venture_capital_lead_res.Validate.Checks.{is_alnum, is_digit}
use venture_capital_lead_res.Runner.Helper.{returned}
use venture_capital_lead_res.Runner.Rules.{
  split_dots, is_label, is_top_label, ends_domain, is_domain, rstrip_dots, Codecs, bare_domain,
}

abbrev pub is_upper : ℕ → Bool
is_upper c = leb b'A' c && leb c b'Z'

abbrev is_domain_char : ℕ → Bool
is_domain_char c = is_alnum c || (c == b'-' || c == b'.')

-- A digit, a lower-case letter, `-` or `.`.
abbrev pub is_plain : ℕ → Bool
is_plain c = (is_digit c || (leb b'a' c && leb c b'z')) || (c == b'-' || c == b'.')

all_chars-rstrip_dots :
    (p : ℕ → Bool) (s : String) → all_chars p s ≡ true → all_chars p (rstrip_dots s) ≡ true
unfolding rstrip_dots
all_chars-rstrip_dots p String.[] h = refl
all_chars-rstrip_dots p (String.◌∷◌ c s) h =
    let rest = all_chars-rstrip_dots p s (ground arith) in ground arith

plain_of : (c : ℕ) → is_upper c ≡ false → is_domain_char c ≡ true → is_plain c ≡ true
plain_of c u d = ground arith

all_plain :
    (s : String)
    → all_chars (λ c. not (is_upper c)) s ≡ true
    → all_chars is_domain_char s ≡ true
    → all_chars is_plain s ≡ true
all_plain String.[] u d = refl
all_plain (String.◌∷◌ c s) u d =
    let first = plain_of (code c) (ground arith) (ground arith) in
    let rest = all_plain s (ground arith) (ground arith) in rw first rest

not_space : (c : ℕ) → is_plain c ≡ true → is_space c ≡ false
not_space c h = ground arith

lstrip-plain : (s : String) → all_chars is_plain s ≡ true → lstrip s ≡ s
unfolding lstrip
lstrip-plain String.[] h = refl
lstrip-plain (String.◌∷◌ c s) h =
    let first : is_space (code c) ≡ false = not_space (code c) (ground arith) in rw first refl

rstrip-plain : (s : String) → all_chars is_plain s ≡ true → rstrip s ≡ s
unfolding rstrip
rstrip-plain String.[] h = refl
rstrip-plain (String.◌∷◌ c s) h =
    let first : is_space (code c) ≡ false = not_space (code c) (ground arith) in
    let rest = rstrip-plain s (ground arith) in ground arith

strip-plain : (s : String) → all_chars is_plain s ≡ true → strip s ≡ s
unfolding strip
strip-plain s h = ap lstrip (rstrip-plain s h) ∙ lstrip-plain s h

all_chars-weaken :
    (p q : ℕ → Bool) (s : String)
    → ((c : ℕ) → p c ≡ true → q c ≡ true)
    → all_chars p s ≡ true
    → all_chars q s ≡ true
all_chars-weaken p q String.[] w h = refl
all_chars-weaken p q (String.◌∷◌ c s) w h =
    let first = w (code c) (ground arith) in
    let rest = all_chars-weaken p q s w (ground arith) in rw first rest

abbrev is_label_char : ℕ → Bool
is_label_char c = is_alnum c || c == b'-'

abbrev all_labels : (ℕ → Bool) → List String → Bool
all_labels p [] = true
all_labels p (l ∷ ls) = all_chars p l && all_labels p ls

label-chars : (l : String) → is_label l ≡ true → all_chars is_label_char l ≡ true
unfolding is_label
label-chars l h = ground arith

letter-char :
    (c : ℕ)
    → ((leb b'a' c && leb c b'z') || (leb b'A' c && leb c b'Z')) ≡ true
    → is_label_char c ≡ true
letter-char c h = ground arith

top_label-chars : (l : String) → is_top_label l ≡ true → all_chars is_label_char l ≡ true
unfolding is_top_label
top_label-chars l h =
    all_chars-weaken (λ c. (leb b'a' c && leb c b'z') || (leb b'A' c && leb c b'Z')) is_label_char l
      letter-char (ground arith)

top_label-filled : (l : String) → is_top_label l ≡ true → is_blank l ≡ false
unfolding is_top_label
top_label-filled String.[] h = absurd (cc h)
top_label-filled (String.◌∷◌ c s) h = refl

abbrev last_label : String → List String → String
last_label l [] = l
last_label l (next ∷ others) = last_label next others

ends_domain-labels :
    (l : String) (others : List String)
    → ends_domain l others ≡ true
    → (all_labels is_label_char (l ∷ others) ≡ true) × (is_blank (last_label l others) ≡ false)
unfolding ends_domain
ends_domain-labels l [] h = let top = top_label-chars l h in (ground arith, top_label-filled l h)
ends_domain-labels l (next ∷ others) h =
    let (rest, filled) = ends_domain-labels next others (ground arith) in
    let first = label-chars l (ground arith) in (ground arith, filled)

-- The characters of a text are those of its labels, and dots.
split_dots-chars :
    (s : String)
    → all_labels is_label_char ((split_dots s).0 ∷ (split_dots s).1) ≡ true
    → all_chars is_domain_char s ≡ true
unfolding split_dots
split_dots-chars String.[] h = refl
split_dots-chars (String.◌∷◌ c s) h = elim (Bool-cases (code c == b'.')) [
  | inl dot ↦
      let rest = split_dots-chars s (ground arith) in
      let this : is_domain_char (code c) ≡ true = ground arith in rw this rest
  | inr other ↦
      let rest = split_dots-chars s (ground arith) in
      let this : is_label_char (code c) ≡ true = ground arith in ground arith
]

rstrip_dots-undotted : (s : String) → (split_dots s).1 ≡ [] → rstrip_dots s ≡ s
unfolding split_dots rstrip_dots
rstrip_dots-undotted String.[] h = refl
rstrip_dots-undotted (String.◌∷◌ c s) h = elim (Bool-cases (code c == b'.')) [
  | inl dot ↦ absurd (ground arith)
  | inr other ↦ let rest = rstrip_dots-undotted s (ground arith) in rw (other, rest) (ground arith)
]

List-cases : (xs : List String) → (xs ≡ []) ⊎ ((y : String) × (ys : List String) × (xs ≡ y ∷ ys))
List-cases [] = inl refl
List-cases (y ∷ ys) = inr (y, ys, refl)

rstrip_dots-filled :
    (s : String)
    → is_blank (last_label (split_dots s).0 (split_dots s).1) ≡ false
    → (rstrip_dots s ≡ s) × (is_blank s ≡ false)
unfolding split_dots rstrip_dots
rstrip_dots-filled String.[] h = absurd (cc h)
rstrip_dots-filled (String.◌∷◌ c s) h = elim (Bool-cases (code c == b'.')) [
  | inl dot ↦ let (rest, filled) = rstrip_dots-filled s (ground arith) in (ground arith, refl)
  | inr other ↦ elim (List-cases (split_dots s).1) [
    | inl none ↦ let rest = rstrip_dots-undotted s none in (rw (other, rest) (ground arith), refl)
    | inr (l, ls, more) ↦
        let same : last_label (split_dots s).0 (split_dots s).1
            ≡ last_label (String.◌∷◌ c (split_dots s).0) (split_dots s).1 =
          rw more refl in
        let (rest, filled) = rstrip_dots-filled s (ground arith) in
        (rw (other, rest) (ground arith), refl)
  ]
]

-- What `lower` is documented to do with ASCII: it leaves no upper-case letter, and leaves a text of
-- digits, lower-case letters, `-` and `.` as it is.
pub record LowersAscii (lower : String → String) : Type 0 where
  pub lowered : (s : String) → all_chars (λ c. not (is_upper c)) (lower s) ≡ true
  pub fixes : (s : String) → all_chars is_plain s ≡ true → lower s ≡ s

is_domain-plain :
    (d : String) → is_domain d ≡ true → (all_chars is_domain_char d ≡ true) × (rstrip_dots d ≡ d)
unfolding is_domain
is_domain-plain d h =
    let ends : ends_domain (split_dots d).0 (split_dots d).1 ≡ true = ground arith in
    let (labels, filled) = ends_domain-labels (split_dots d).0 (split_dots d).1 ends in
    (split_dots-chars d labels, (rstrip_dots-filled d filled).0)

-- A domain that was accepted is in normal form: where `lower` does with ASCII what it is documented
-- to do, it is accepted again as it is.
pub bare_domain-again :
    (x : Codecs) (text domain : String)
    → LowersAscii x.lower
    → bare_domain x text ≡ returned domain
    → bare_domain x domain ≡ returned domain
unfolding bare_domain
bare_domain-again x text domain ascii h =
    let raw = rstrip_dots (x.lower (strip text)) in
    let same : raw ≡ domain = ground arith in
    let valid : is_domain domain ≡ true = ground arith in
    let (chars, undotted) = is_domain-plain domain valid in
    let lowered : all_chars (λ c. not (is_upper c)) domain ≡ true =
      ap (all_chars (λ c. not (is_upper c))) (sym same)
      ∙ all_chars-rstrip_dots (λ c. not (is_upper c)) (x.lower (strip text))
          (ascii.lowered (strip text)) in
    let plain = all_plain domain lowered chars in
    let again : rstrip_dots (x.lower (strip domain)) ≡ domain =
      ap (λ s. rstrip_dots (x.lower s)) (strip-plain domain plain)
      ∙ ap rstrip_dots (ascii.fixes domain plain)
      ∙ undotted in
    rw (again, valid) refl
