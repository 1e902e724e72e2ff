-- ===== src/Runner/Buffer.antt =====
-- However a program cuts its output into writes, the buffer holds the front of all of it.
use gotify_vps_agent.Prelude.{
  ℕ, zero, suc, ◌-◌, ◌≤◌, ◌<◌, ◌≡◌, refl, ap, sym, ◌∙◌, inl, inr, Bool, List, [], ◌∷◌, ◌++◌, arith,
  ltb, ◌==◌, length, take, append-nil, append_assoc, length-append, length-take, Bool-cases,
}
use gotify_vps_agent.Prelude.Text.{Text}
use gotify_vps_agent.Runner.{LimitedBuffer, write, write_all, fresh}

-- All that a program writes.
abbrev pub concat : List Text → Text
concat [] = []
concat (p ∷ rest) = p ++ concat rest

take_nothing {ℓ} : {A : Type ℓ} (n : ℕ) (s : List A) → n ≡ 0 → take n s ≡ []
take_nothing n s e = rw (e) refl

take_whole {ℓ} : {A : Type ℓ} (n : ℕ) (s : List A) → length s ≤ n → take n s ≡ s
take_whole zero [] h = refl
take_whole zero (b ∷ s) h = absurd (omega arith)
take_whole (suc n) [] h = refl
take_whole (suc n) (b ∷ s) h = ap (◌∷◌ b) (take_whole n s (omega arith))

take-append {ℓ} :
    {A : Type ℓ} (n : ℕ) (s t : List A) → take n (s ++ t) ≡ take n s ++ take (n - length s) t
take-append zero s t = sym (take_nothing (0 - length s) t (omega arith))
take-append (suc n) [] t = ap (λ k. take k t) {x = suc n} (omega arith)
take-append (suc n) (b ∷ s) t =
    let e : suc n - suc (length s) ≡ n - length s = omega arith in
    rw (e) (ap (◌∷◌ b) (take-append n s t))

-- A buffer of the given limit that has been given `seen`.
abbrev pub given : ℕ → Text → LimitedBuffer
given limit seen = record {
  buffer = take limit seen;
  remaining = limit - length seen;
  truncated = ltb limit (length seen);
}

same_buffer :
    (b b' : Text) (r r' : ℕ) (t t' : Bool)
    → b ≡ b'
    → r ≡ r'
    → t ≡ t'
    → ◌≡◌ {A = LimitedBuffer}
        (record { buffer = b; remaining = r; truncated = t })
        (record { buffer = b'; remaining = r'; truncated = t' })
same_buffer b b' r r' t t' e f g = cc

write-given :
    (limit : ℕ) (seen p : Text)
    → 0 < length p
    → (write (given limit seen) p).0 ≡ given limit (seen ++ p)
unfolding write
write-given limit seen p h =
    let room = limit - length seen in
    let joined = take-append limit seen p in
    let size = length-append seen p in
    elim (Bool-cases (room == 0)) [
      | inl none_left ↦
          rw (none_left, joined, size)
            (same_buffer _ _ _ _ _ _
              (rw (take_nothing room p (ground arith)) (sym (append-nil (take limit seen))))
              (ground arith) (ground arith))
      | inr some_left ↦ elim (Bool-cases (ltb room (length p))) [
        | inl cut ↦
            rw (some_left, cut, joined, size)
              (same_buffer _ _ _ _ _ _ refl (ground (arith, length-take room p)) (ground arith))
        | inr fits ↦
            rw (some_left, fits, joined, size)
              (same_buffer _ _ _ _ _ _ (rw (take_whole room p (ground arith)) refl) (ground arith)
                (ground arith))
      ]
    ]

-- No write is empty.
abbrev pub Written : List Text → Type 0
Written [] = Unit
Written (p ∷ rest) = (0 < length p) × Written rest

write_all-given :
    (limit : ℕ) (chunks : List Text) (seen : Text)
    → Written chunks
    → write_all (given limit seen) chunks ≡ given limit (seen ++ concat chunks)
unfolding write_all
write_all-given limit [] seen h = rw (append-nil seen) refl
write_all-given limit (p ∷ rest) seen h = rw (write-given limit seen p h.0) (
    write_all-given limit rest (seen ++ p) h.1
    ∙ ap (given limit) (append_assoc seen p (concat rest)))

fresh-given : (limit : ℕ) → fresh limit ≡ given limit []
fresh-given limit =
    same_buffer _ _ _ _ _ _ (sym (take_whole limit [] (omega arith))) (omega arith) (ground arith)

-- However a program cuts its output into writes, none of them empty, the buffer ends up with the
-- first `limit` bytes of the whole output and with the room that these leave; and it is marked as
-- truncated exactly if the output is longer than the limit.
pub write_all_lem :
    (limit : ℕ) (chunks : List Text)
    → Written chunks
    → ((write_all (fresh limit) chunks).buffer ≡ take limit (concat chunks))
      × ((write_all (fresh limit) chunks).remaining ≡ limit - length (concat chunks))
      × ((write_all (fresh limit) chunks).truncated ≡ ltb limit (length (concat chunks)))
write_all_lem limit chunks h =
    let e : write_all (fresh limit) chunks ≡ given limit (concat chunks) =
      ap (λ w. write_all w chunks) (fresh-given limit) ∙ write_all-given limit chunks [] h in
    (ap (λ w. w.buffer) e, ap (λ w. w.remaining) e, ap (λ w. w.truncated) e)
