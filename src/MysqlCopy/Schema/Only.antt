-- ===== src/MysqlCopy/Schema/Only.antt =====
-- normalizeSchema removes one table option and nothing else.
use runner.Prelude.{
  ℕ, Bool, true, ◌&&◌, ==_iff, [], ◌∷◌, ◌++◌, Option, none, some, ◌≡◌, ◌≢◌, refl, sym, ap, ◌∙◌, ◌⊎◌,
  inl, inr, arith, Bool-cases, Option-cases, &&_split, all,
}
use mathlib.Core.Path.{subst}
use mathlib.Core.List.{append_assoc}
use runner.Prelude.Bytes.{Bytes, cut_prefix, cut_prefix-append}
use runner.Prelude.Regex.{is_digit, span}
use runner.MysqlCopy.Schema.{
  Scan, start, scan_byte, outside, at_boundary, auto_increment, number_end, option_end, to_list,
  is_blank, normalize_loop, normalize_schema,
}

-- The scanner's state behind a text, by the fold of `scan_byte`.
abbrev pub scan : Bytes → Scan → Scan
scan [] st = st
scan (c ∷ s) st = scan s (scan_byte c st)

scan-append : (a b : Bytes) (st : Scan) → scan (a ++ b) st ≡ scan b (scan a st)
scan-append [] b st = refl
scan-append (c ∷ a) b st = scan-append a b (scan_byte c st)

span-append : (p : ℕ → Bool) (s : Bytes) → s ≡ (span p s).0 ++ (span p s).1
unfolding span
span-append p [] = refl
span-append p (c ∷ s) = elim (Bool-cases (p c)) [
  | inl h ↦ rw h (ap (λ l. c ∷ l) (span-append p s))
  | inr h ↦ rw h
]

span-all : (p : ℕ → Bool) (s : Bytes) → all p (span p s).0 ≡ true
unfolding span
span-all p [] = refl
span-all p (c ∷ s) = elim (Bool-cases (p c)) [ inl h ↦ rw h (rw h (span-all p s)) | inr h ↦ rw h ]

-- A text that begins with the option: its number, and what stands behind it.
pub record IsOption (s tail : Bytes) : Type 0 where
  pub digits : Bytes
  pub text : s ≡ auto_increment ++ digits ++ tail
  pub some_digit : digits ≢ []
  pub only_digits : all is_digit digits ≡ true
  pub boundary : at_boundary tail ≡ true

number_end_lem :
    (run rest tail : Bytes)
    → number_end (run, rest) ≡ some tail
    → (run ≢ []) × (rest ≡ tail) × (at_boundary tail ≡ true)
unfolding number_end
number_end_lem [] rest tail h = cc
number_end_lem (d ∷ run) rest tail h = (λ e. cc, ground arith, ground arith)

option_end-IsOption : (s tail : Bytes) → option_end s ≡ some tail → IsOption s tail
unfolding option_end
option_end-IsOption s tail h = elim (Option-cases (cut_prefix auto_increment s)) [
  | inl no_prefix ↦ let e : none ≡ some tail = rw no_prefix at h in cc
  | inr (rest, cut) ↦
      let run = (span is_digit rest).0 in
      let end : number_end (span is_digit rest) ≡ some tail = rw cut at h in
      let (some_digit, same, boundary) =
        number_end_lem (span is_digit rest).0 (span is_digit rest).1 tail end in
      record {
        digits = (span is_digit rest).0;
        text =
            cut_prefix-append auto_increment s rest cut
            ∙ ap (λ l. auto_increment ++ l)
                (span-append is_digit rest ∙ ap (λ l. (span is_digit rest).0 ++ l) same);
        some_digit = some_digit;
        only_digits = span-all is_digit rest;
        boundary = boundary;
      }
]

-- `out` is `s` without one option: the option stands behind a space, outside all quotes and
-- parentheses, and the space goes with it.
pub record IsCut (s out : Bytes) : Type 0 where
  pub front : Bytes
  pub opt : Bytes
  pub tail : Bytes
  pub text : s ≡ front ++ 32 ∷ opt
  pub is_option : IsOption opt tail
  pub at_top : outside 65 (scan (front ++ 32 ∷ []) start) ≡ true
  pub cut : out ≡ front ++ tail

-- An option begins with the letter A.
option-head : (c : ℕ) (rest tail : Bytes) → IsOption (c ∷ rest) tail → c ≡ 65
option-head c rest tail o = cc (o.text)

blank-prev : (prev : Option ℕ) → is_blank prev ≡ true → prev ≡ some 32
blank-prev none h = cc
blank-prev (some c) h = ap some ((==_iff c 32).0 h)

-- The option found at the head of the rest is a cut of the whole text.
found-IsCut :
    (st : Scan) (front : Bytes) (prev : Option ℕ) (c : ℕ) (rest tail : Bytes)
    → st ≡ scan (front ++ to_list prev) start
    → outside c st ≡ true
    → is_blank prev ≡ true
    → option_end (c ∷ rest) ≡ some tail
    → IsCut ((front ++ to_list prev) ++ c ∷ rest) (front ++ tail)
found-IsCut st front prev c rest tail at_state top blank end =
    let o = option_end-IsOption (c ∷ rest) tail end in
    let is_a = option-head c rest tail o in
    let space = blank-prev prev blank in
    record {
      front = front;
      opt = c ∷ rest;
      tail = tail;
      text =
          ap (λ p. (front ++ to_list p) ++ c ∷ rest) space
          ∙ append_assoc front (32 ∷ []) (c ∷ rest);
      is_option = o;
      at_top =
          ap (λ p. outside 65 (scan (front ++ to_list p) start)) (sym space)
          ∙ ap (outside 65) (sym at_state)
          ∙ ap (λ b. outside b st) (sym is_a)
          ∙ top;
      cut = refl;
    }

normalize_loop-IsCut :
    (st : Scan) (front : Bytes) (prev : Option ℕ) (rest out : Bytes)
    → st ≡ scan (front ++ to_list prev) start
    → normalize_loop st front prev rest ≡ some out
    → IsCut ((front ++ to_list prev) ++ rest) out
unfolding normalize_loop
normalize_loop-IsCut st front prev [] out at_state h = cc
normalize_loop-IsCut st front prev (c ∷ rest) out at_state h =
    let later : normalize_loop (scan_byte c st) (front ++ to_list prev) (some c) rest ≡ some out
        → IsCut ((front ++ to_list prev) ++ c ∷ rest) out =
      λ e.
        subst (λ l. IsCut l out) (append_assoc (front ++ to_list prev) (c ∷ []) rest)
          (normalize_loop-IsCut (scan_byte c st) (front ++ to_list prev) (some c) rest out
            (ap (scan_byte c) at_state ∙ sym (scan-append (front ++ to_list prev) (c ∷ []) start))
            e) in
    elim (Bool-cases (outside c st && is_blank prev)) [
      | inr passed ↦ later (rw passed at h)
      | inl candidate ↦
          let h' = rw candidate at h in
          let (top, blank) = &&_split (outside c st) (is_blank prev) candidate in
          elim (Option-cases (option_end (c ∷ rest))) [
            | inl none_there ↦ later (rw none_there at h')
            | inr (tail, end) ↦
                let e : some (front ++ tail) ≡ some out = rw end at h' in
                let same : front ++ tail ≡ out = cc e in
                subst (λ o. IsCut ((front ++ to_list prev) ++ c ∷ rest) o) same
                  (found-IsCut st front prev c rest tail at_state top blank end)
          ]
    ]

-- Of every text, normalizeSchema returns the text itself, or the text without one space followed
-- by AUTO_INCREMENT= and a non-empty run of digits, which end at a space, a semicolon or the end
-- of the text and stand outside all quotes and parentheses; everything before and behind is kept
-- byte for byte.
pub normalize_schema-cuts_one :
    (s : Bytes) → (normalize_schema s ≡ s) ⊎ IsCut s (normalize_schema s)
unfolding normalize_schema
normalize_schema-cuts_one s = elim (Option-cases (normalize_loop start [] none s)) [
  | inl none_there ↦ inl (rw (none_there, normalize_schema))
  | inr (out, found) ↦
      inr (rw (found, normalize_schema) (normalize_loop-IsCut start [] none s out (refl) found))
]
