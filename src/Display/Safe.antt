-- ===== src/Display/Safe.antt =====
-- account_display.go: what `safeDisplayName` leaves of a name.
use Prim.Native.Char.{code}
use mathlib.Core.Path.{subst}
use codex_daily_prewarm.Base.{
  All, Bool-cases, String, arith, false, if-false, if-true, inl, inr, ltb, ltb→lt, refl, suc, sym,
  zero, ℕ, ◌+◌, ◌<◌, ◌≡◌, ◌≤◌, ◌⊎◌,
}
use codex_daily_prewarm.Display.Names.{
  byte_length, char_count, drop_last, is_control, safe_display_name, shortened, without_controls,
}
use codex_daily_prewarm.Text.{codes, trim_space}

-- `name` begins `whole`.
abbrev pub IsBeginning : String → String → Type 0
IsBeginning String.[] whole = Unit {0}
IsBeginning (String.◌∷◌ a name) String.[] = ⊥
IsBeginning (String.◌∷◌ a name) (String.◌∷◌ b whole) = (a ≡ b) × IsBeginning name whole

abbrev pub IsPrintable : String → Type 0
IsPrintable name = All (λ c. is_control c ≡ false) (codes name)

without_controls-IsPrintable : (name : String) → IsPrintable (without_controls name)
unfolding without_controls
without_controls-IsPrintable String.[] = tt
without_controls-IsPrintable (String.◌∷◌ letter text) =
    elim (Bool-cases (is_control (code letter))) [
      | inl e ↦
          subst IsPrintable (sym (if-true (is_control (code letter)) _ _ e))
            (without_controls-IsPrintable text)
      | inr e ↦
          subst IsPrintable (sym (if-false (is_control (code letter)) _ _ e))
            (e, without_controls-IsPrintable text)
    ]

drop_last-IsPrintable : (name : String) → IsPrintable name → IsPrintable (drop_last name)
drop_last-IsPrintable String.[] t = tt
drop_last-IsPrintable (String.◌∷◌ letter String.[]) t = tt
drop_last-IsPrintable (String.◌∷◌ letter (String.◌∷◌ next text)) t =
    (t.0, drop_last-IsPrintable (String.◌∷◌ next text) t.1)

IsBeginning-same : (name : String) → IsBeginning name name
IsBeginning-same String.[] = tt
IsBeginning-same (String.◌∷◌ letter text) = (refl, IsBeginning-same text)

drop_last-IsBeginning :
    (name whole : String) → IsBeginning name whole → IsBeginning (drop_last name) whole
drop_last-IsBeginning String.[] whole t = tt
drop_last-IsBeginning (String.◌∷◌ letter String.[]) whole t = tt
drop_last-IsBeginning (String.◌∷◌ letter (String.◌∷◌ next text)) String.[] t = absurd t
drop_last-IsBeginning (String.◌∷◌ letter (String.◌∷◌ next text)) (String.◌∷◌ b whole) t =
    (t.0, drop_last-IsBeginning (String.◌∷◌ next text) whole t.1)

drop_last-count :
    (name : String) (fuel : ℕ) → char_count name ≤ fuel + 1 → char_count (drop_last name) ≤ fuel
drop_last-count String.[] fuel h = omega arith
drop_last-count (String.◌∷◌ letter String.[]) fuel h = omega arith
drop_last-count (String.◌∷◌ letter (String.◌∷◌ next text)) zero h = absurd (omega (arith, h))
drop_last-count (String.◌∷◌ letter (String.◌∷◌ next text)) (suc fuel) h =
    omega (arith, drop_last-count (String.◌∷◌ next text) fuel (omega (arith, h)))

empty-count : (name : String) → char_count name ≤ 0 → byte_length name ≤ 128
empty-count String.[] h = omega arith
empty-count (String.◌∷◌ letter text) h = absurd (omega (arith, h))

-- A name for the displays, made of `whole`.
pub record IsSafeName (whole name : String) : Type 0 where
  pub short : byte_length name ≤ 128
  pub printable : IsPrintable name
  pub beginning : IsBeginning name whole
  pub complete_if_short : (name ≡ whole) ⊎ (128 < byte_length whole)

-- The name after some rounds: the beginning of `whole`, or all of it.
record IsCut (whole name : String) : Type 0 where
  cut_printable : IsPrintable name
  cut_beginning : IsBeginning name whole
  cut_reason : (name ≡ whole) ⊎ (128 < byte_length whole)

shortened-IsSafeName :
    (fuel : ℕ) (whole name : String)
    → char_count name ≤ fuel
    → IsCut whole name
    → IsSafeName whole (shortened fuel name)
unfolding shortened
shortened-IsSafeName zero whole name h t = record {
  short = empty-count name h;
  printable = t.cut_printable;
  beginning = t.cut_beginning;
  complete_if_short = t.cut_reason;
}
shortened-IsSafeName (suc fuel) whole name h t = elim (Bool-cases (ltb 128 (byte_length name))) [
  | inl long ↦ subst (IsSafeName whole) (sym (if-true (ltb 128 (byte_length name)) _ _ long)) (
      shortened-IsSafeName fuel whole (drop_last name)
        (drop_last-count name fuel (omega (arith, h)))
        (record {
          cut_printable = drop_last-IsPrintable name t.cut_printable;
          cut_beginning = drop_last-IsBeginning name whole t.cut_beginning;
          cut_reason = elim t.cut_reason [
            | inl e ↦ inr (subst (λ n. 128 < byte_length n) e (ltb→lt 128 _ long))
            | inr over ↦ inr over
          ];
        }))
  | inr fits ↦
      subst (IsSafeName whole) (sym (if-false (ltb 128 (byte_length name)) _ _ fits)) (record {
        short = ground (arith, fits);
        printable = t.cut_printable;
        beginning = t.cut_beginning;
        complete_if_short = t.cut_reason;
      })
]

-- `safeDisplayName` ends with at most 128 bytes of UTF-8 and no control character, and its result is
-- the beginning of the trimmed name without its control characters: all of it, unless that has more
-- than 128 bytes.
pub safe_display_name-IsSafeName :
    (name : String) → IsSafeName (without_controls (trim_space name)) (safe_display_name name)
unfolding safe_display_name
safe_display_name-IsSafeName name =
    let whole = without_controls (trim_space name) in
    shortened-IsSafeName (char_count whole) whole whole (omega arith) (record {
      cut_printable = without_controls-IsPrintable (trim_space name);
      cut_beginning = IsBeginning-same whole;
      cut_reason = inl refl;
    })
