-- ===== src/Config/Services.antt =====
-- internal/config: the services of settings that are read have different names, as a Go map has them.
use gotify_vps_agent.Prelude.{
  ◌≡◌, refl, sym, subst, ◌⊎◌, inl, inr, List, [], ◌∷◌, arith, ltb, length, Bool-cases, Option-cases,
  any, take, drop, ◌-◌, suc,
}
use mathlib.Core.List.{reverse}
use gotify_vps_agent.Prelude.Text.{Text, text_eq, is_empty}
use gotify_vps_agent.Prelude.Dict.{insert, DistinctKeys, insert-DistinctKeys}
use gotify_vps_agent.Strings.{trim_space}
use gotify_vps_agent.Strings.Lines.{raw_lines, max_line, without_return}
use gotify_vps_agent.File.{ReadOutcome, missing, unopened, unread, contents}
use gotify_vps_agent.Config.{Config, Go, default}
use gotify_vps_agent.Config.Line.{strip_comment, cut_equals}
use gotify_vps_agent.Config.Values.{string_value}
use gotify_vps_agent.Config.Sections.{assign, assign_services}
use gotify_vps_agent.Config.Reader.{
  is_section, is_header, identity_of, line_too_long, Reading, Step, carry_on, stop, read_header,
  read_assignment, read_line, then_read, read_lines, unmarshal, loaded, checked, load,
  max_config_bytes,
}

module _ {F : Type 0} (go : Go F) where
  assign-services :
      (cfg : Config F) (section key raw : Text)
      → ((assign go cfg section key raw).0.services ≡ cfg.services)
        ⊎ ((assign go cfg section key raw).0.services
            ≡ insert key (string_value go raw).value cfg.services)
  unfolding assign assign_services
  assign-services cfg section key raw = ground arith

  assign-DistinctKeys :
      (cfg : Config F) (section key raw : Text)
      → DistinctKeys cfg.services
      → DistinctKeys (assign go cfg section key raw).0.services
  assign-DistinctKeys cfg section key raw d = elim (assign-services cfg section key raw) [
    | inl e ↦ subst DistinctKeys (sym e) d
    | inr e ↦ subst DistinctKeys (sym e) (insert-DistinctKeys key _ cfg.services d)
  ]

  -- The services that a step leaves.
  abbrev Kept : Step F → Type 0
  Kept (carry_on r) = DistinctKeys r.cfg.services
  Kept (stop r e) = DistinctKeys r.cfg.services

  read_header-Kept :
      (r : Reading F) (line : Text) → DistinctKeys r.cfg.services → Kept (read_header r line)
  unfolding read_header
  read_header-Kept r line d =
      elim (Bool-cases (is_section (trim_space (take (length line - 2) (drop 1 line))))) [
        | inl e ↦ rw (e) d
        | inr e ↦ rw (e) d
      ]

  read_assignment-Kept :
      (r : Reading F) (key raw : Text)
      → DistinctKeys r.cfg.services
      → Kept (read_assignment go r key raw)
  unfolding read_assignment
  read_assignment-Kept r key raw d =
      elim (Bool-cases (any (text_eq (identity_of r.section key)) r.seen)) [
        | inl e ↦ rw (e) d
        | inr once ↦ elim (Option-cases (assign go r.cfg r.section key raw).1) [
          | inl e ↦ rw (once, e) (assign-DistinctKeys r.cfg r.section key raw d)
          | inr (err, e) ↦ rw (once, e) (assign-DistinctKeys r.cfg r.section key raw d)
        ]
      ]

  read_line-Kept :
      (r : Reading F) (scanned : Text) → DistinctKeys r.cfg.services → Kept (read_line go r scanned)
  unfolding read_line
  read_line-Kept r scanned d =
      let line = trim_space (strip_comment scanned) in
      elim (Bool-cases (is_empty line)) [
        | inl e ↦ rw (e) d
        | inr some_text ↦ elim (Bool-cases (is_header line)) [
          | inl e ↦ rw (some_text, e) (read_header-Kept r line d)
          | inr e ↦ elim (Option-cases (cut_equals line)) [
            | inl none_cut ↦ rw (some_text, e, none_cut) d
            | inr ((key, raw), was_cut) ↦
                rw (some_text, e, was_cut)
                  (read_assignment-Kept r (trim_space key) (trim_space raw) d)
          ]
        ]
      ]

  then_read-Kept :
      (f : Reading F → Step F) (s : Step F)
      → Kept s
      → ((r : Reading F) → DistinctKeys r.cfg.services → Kept (f r))
      → Kept (then_read f s)
  then_read-Kept f (carry_on r) h k = k r h
  then_read-Kept f (stop r e) h k = h

  read_lines-Kept :
      (raws : List Text) (r : Reading F) → DistinctKeys r.cfg.services → Kept (read_lines go raws r)
  unfolding read_lines
  read_lines-Kept [] r d = d
  read_lines-Kept (raw ∷ rest) r d =
      let first = read_line go r (without_return (reverse raw)) in
      elim (Bool-cases (ltb max_line (length raw))) [
        | inl long ↦
            let e : read_lines go (raw ∷ rest) r ≡ stop r line_too_long =
              rw (read_lines, long) refl in
            subst Kept (sym e) d
        | inr fits ↦
            let e : read_lines go (raw ∷ rest) r ≡ then_read (read_lines go rest) first =
              rw (read_lines, fits) refl in
            subst Kept (sym e) (
              then_read-Kept (read_lines go rest) first
                (read_line-Kept r (without_return (reverse raw)) d)
                (λ q k. read_lines-Kept rest q k))
      ]

  unmarshal-Kept :
      (text : Text) (cfg : Config F) → DistinctKeys cfg.services → Kept (unmarshal go text cfg)
  unfolding unmarshal
  unmarshal-Kept text cfg d = read_lines-Kept (raw_lines text) _ d

  checked-DistinctKeys :
      (s : Step F) (cfg : Config F) → Kept s → checked go s ≡ loaded cfg → DistinctKeys cfg.services
  checked-DistinctKeys (stop r e) cfg k h = absurd (ground (arith, h))
  checked-DistinctKeys (carry_on r) cfg k h =
      let same : r.cfg ≡ cfg = ground (arith, h) in
      subst (λ (c : Config F). DistinctKeys c.services) same k

  -- The services of settings that `Load` returns have different names.
  pub load-DistinctKeys :
      (host : Text) (file : ReadOutcome) (cfg : Config F)
      → load go host file ≡ loaded cfg
      → DistinctKeys cfg.services
  unfolding load default
  load-DistinctKeys host missing cfg h = absurd (ground (arith, h))
  load-DistinctKeys host unopened cfg h = absurd (ground (arith, h))
  load-DistinctKeys host unread cfg h = absurd (ground (arith, h))
  load-DistinctKeys host (contents text) cfg h =
      let start = take (suc max_config_bytes) text in
      elim (Bool-cases (ltb max_config_bytes (length start))) [
        | inl long ↦ absurd (ground (arith, h, long))
        | inr fits ↦
            checked-DistinctKeys (unmarshal go start (default go host)) cfg
              (unmarshal-Kept start (default go host) tt) (ground (arith, h, fits))
      ]
