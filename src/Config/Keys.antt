-- ===== src/Config/Keys.antt =====
-- internal/config: no file that `Unmarshal` accepts assigns a key twice.
use gotify_vps_agent.Prelude.{
  ◌≡◌, refl, sym, subst, false, inl, inr, List, [], ◌∷◌, arith, any, ltb, length, Bool-cases,
  Option-cases, if◌then◌else◌, none, some, take, drop, ◌-◌,
}
use mathlib.Core.List.{reverse}
use gotify_vps_agent.Prelude.Text.{Text, text_eq, is_empty}
use gotify_vps_agent.Strings.{trim_space}
use gotify_vps_agent.Strings.Lines.{raw_lines, without_return, max_line}
use gotify_vps_agent.Config.{Config, Go}
use gotify_vps_agent.Config.Line.{strip_comment, cut_equals}
use gotify_vps_agent.Config.Sections.{assign}
use gotify_vps_agent.Config.Reader.{
  Reading, Step, carry_on, stop, line_too_long, read_header, read_assignment, read_line, read_lines,
  unmarshal, identity_of, then_read, is_header,
}

-- No text twice.
abbrev pub Distinct : List Text → Type 0
Distinct [] = Unit
Distinct (s ∷ rest) = (any (text_eq s) rest ≡ false) × Distinct rest

abbrev pub SeenOnce : {F : Type 0} → Step F → Type 0
SeenOnce (carry_on r) = Distinct r.seen
SeenOnce (stop r e) = Distinct r.seen

read_header-SeenOnce :
    {F : Type 0} (r : Reading F) (line : Text) → Distinct r.seen → SeenOnce (read_header r line)
unfolding read_header
read_header-SeenOnce r line h = ground arith

read_assignment-SeenOnce :
    {F : Type 0} (go : Go F) (r : Reading F) (key raw : Text)
    → Distinct r.seen
    → SeenOnce (read_assignment go r key raw)
unfolding read_assignment
read_assignment-SeenOnce go r key raw h =
    elim (Bool-cases (any (text_eq (identity_of r.section key)) r.seen)) [
      | inl twice ↦ rw (twice) h
      | inr once ↦ elim (Option-cases (assign go r.cfg r.section key raw).1) [
        | inl e ↦ rw (once, e) (once, h)
        | inr (err, e) ↦ rw (once, e) (once, h)
      ]
    ]

read_line-SeenOnce :
    {F : Type 0} (go : Go F) (r : Reading F) (scanned : Text)
    → Distinct r.seen
    → SeenOnce (read_line go r scanned)
unfolding read_line
read_line-SeenOnce go r scanned h =
    let line = trim_space (strip_comment scanned) in
    elim (Option-cases (cut_equals line)) [
      | inl e ↦ ground (arith, e, read_header-SeenOnce r line h)
      | inr ((key, raw), e) ↦ ground (
        arith,
        e,
        read_header-SeenOnce r line h,
        read_assignment-SeenOnce go r (trim_space key) (trim_space raw) h,
      )
    ]

then_read-SeenOnce :
    {F : Type 0} (f : Reading F → Step F) (s : Step F)
    → SeenOnce s
    → ((r : Reading F) → Distinct r.seen → SeenOnce (f r))
    → SeenOnce (then_read f s)
then_read-SeenOnce f (carry_on r) h k = k r h
then_read-SeenOnce f (stop r e) h k = h

read_lines-SeenOnce :
    {F : Type 0} (go : Go F) (raws : List Text) (r : Reading F)
    → Distinct r.seen
    → SeenOnce (read_lines go raws r)
unfolding read_lines
read_lines-SeenOnce go [] r h = h
read_lines-SeenOnce {F} go (raw ∷ rest) r h =
    let first = read_line go r (without_return (reverse raw)) in
    elim (Bool-cases (ltb max_line (length raw))) [
      | inl long ↦
          let e : read_lines go (raw ∷ rest) r ≡ stop r line_too_long =
            rw (read_lines, long) refl in
          subst SeenOnce (sym e) h
      | inr fits ↦
          let e : read_lines go (raw ∷ rest) r ≡ then_read (read_lines go rest) first =
            rw (read_lines, fits) refl in
          subst SeenOnce (sym e) (
            then_read-SeenOnce (read_lines go rest) first
              (read_line-SeenOnce go r (without_return (reverse raw)) h)
              (λ q k. read_lines-SeenOnce go rest q k))
    ]

-- A line without its comment and its outer spaces.
abbrev line_of : Text → Text
line_of raw = trim_space (strip_comment (without_return (reverse raw)))

-- The section that a line leaves the reader in, and the keys assigned so far, the last one first and
-- each with its section, given those before the line.
abbrev pub after_line : Text × List Text → Text → Text × List Text
after_line (section, keys) line =
    if is_empty line
    then (section, keys)
    else if is_header line
    then (trim_space (take (length line - 2) (drop 1 line)), keys)
    else elim (cut_equals line) [
      | none ↦ (section, keys)
      | some (key, raw) ↦ (section, identity_of section (trim_space key) ∷ keys)
    ]

abbrev pub after_lines : Text × List Text → List Text → Text × List Text
after_lines k [] = k
after_lines k (raw ∷ rest) = after_lines (after_line k (line_of raw)) rest

-- The keys that the lines of a text assign, found without reading any value.
abbrev pub assigned_keys : Text → List Text
assigned_keys text = (after_lines ([], []) (raw_lines text)).1

-- A reader that goes on is in the section and has the keys of `k`.
abbrev Follows : {F : Type 0} → Text × List Text → Step F → Type 0
Follows k (carry_on r) = (r.section, r.seen) ≡ k
Follows k (stop r e) = Unit

read_header-Follows :
    {F : Type 0} (r : Reading F) (line : Text)
    → Follows (trim_space (take (length line - 2) (drop 1 line)), r.seen) (read_header r line)
unfolding read_header
read_header-Follows r line = ground arith

read_assignment-Follows :
    {F : Type 0} (go : Go F) (r : Reading F) (key raw : Text)
    → Follows (r.section, identity_of r.section key ∷ r.seen) (read_assignment go r key raw)
unfolding read_assignment
read_assignment-Follows go r key raw =
    elim (Bool-cases (any (text_eq (identity_of r.section key)) r.seen)) [
      | inl twice ↦ rw (twice) tt
      | inr once ↦ elim (Option-cases (assign go r.cfg r.section key raw).1) [
        | inl e ↦ rw (once, e) refl
        | inr (err, e) ↦ rw (once, e) tt
      ]
    ]

read_line-Follows :
    {F : Type 0} (go : Go F) (r : Reading F) (scanned : Text)
    → Follows
        (after_line (r.section, r.seen) (trim_space (strip_comment scanned)))
        (read_line go r scanned)
unfolding read_line
read_line-Follows go r scanned =
    let line = trim_space (strip_comment scanned) in
    elim (Bool-cases (is_empty line)) [
      | inl none_there ↦ rw (none_there) refl
      | inr some_there ↦ elim (Bool-cases (is_header line)) [
        | inl header ↦ rw (some_there, header) (read_header-Follows r line)
        | inr no_header ↦ elim (Option-cases (cut_equals line)) [
          | inl e ↦ rw (some_there, no_header, e) tt
          | inr ((key, raw), e) ↦
              rw (some_there, no_header, e)
                (read_assignment-Follows go r (trim_space key) (trim_space raw))
        ]
      ]
    ]

then_read-Follows :
    {F : Type 0} (f : Reading F → Step F) (s : Step F) (k : Text × List Text)
    (after : Text × List Text → Text × List Text)
    → Follows k s
    → ((r : Reading F) → Follows (after (r.section, r.seen)) (f r))
    → Follows (after k) (then_read f s)
then_read-Follows f (carry_on r) k after h g = subst (λ x. Follows (after x) (f r)) h (g r)
then_read-Follows f (stop r e) k after h g = tt

read_lines-Follows :
    {F : Type 0} (go : Go F) (raws : List Text) (r : Reading F)
    → Follows (after_lines (r.section, r.seen) raws) (read_lines go raws r)
unfolding read_lines
read_lines-Follows go [] r = refl
read_lines-Follows go (raw ∷ rest) r = elim (Bool-cases (ltb max_line (length raw))) [
  | inl long ↦
      let e : read_lines go (raw ∷ rest) r ≡ stop r line_too_long = rw (read_lines, long) refl in
      subst (Follows (after_lines (r.section, r.seen) (raw ∷ rest))) (sym e) tt
  | inr fits ↦
      let scanned = without_return (reverse raw) in
      let e : read_lines go (raw ∷ rest) r
          ≡ then_read (read_lines go rest) (read_line go r scanned) =
        rw (read_lines, fits) refl in
      subst (Follows (after_lines (r.section, r.seen) (raw ∷ rest))) (sym e) (
        then_read-Follows (read_lines go rest) (read_line go r scanned)
          (after_line (r.section, r.seen) (line_of raw)) (λ k. after_lines k rest)
          (read_line-Follows go r scanned) (λ q. read_lines-Follows go rest q))
]

-- If `Unmarshal` reads a text to its end, whatever the settings before, then no key is assigned twice
-- in the same section by the lines of the text.
pub unmarshal-Distinct :
    {F : Type 0} (go : Go F) (text : Text) (cfg : Config F) (r : Reading F)
    → unmarshal go text cfg ≡ carry_on r
    → Distinct (assigned_keys text)
unfolding unmarshal
unmarshal-Distinct go text cfg r h =
    let start : Reading _ = record { cfg = cfg; section = []; seen = [] } in
    let follows : Follows (after_lines ([], []) (raw_lines text)) (carry_on r) =
      subst (Follows (after_lines ([], []) (raw_lines text))) h
        (read_lines-Follows go (raw_lines text) start) in
    let once : SeenOnce (carry_on r) =
      subst SeenOnce h (read_lines-SeenOnce go (raw_lines text) start tt) in
    subst (λ k. Distinct k.1) follows once
