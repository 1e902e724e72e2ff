-- ===== src/File.antt =====
-- Reading and writing the agent's files, as far as internal/state and internal/queue do the same.
-- The file system and encoding/json are outside: what they answer is an argument.
use gotify_vps_agent.Prelude.{
  ℕ, zero, suc, ◌≤◌, ◌≡◌, refl, ap, subst, Bool, true, false, [], ◌∷◌, arith, ltb, if◌then◌else◌,
  length, take, length-take,
}
use gotify_vps_agent.Prelude.Text.{Text}

-- What os.Open and io.ReadAll answer.
pub data ReadOutcome : Type 0 where
  missing unopened unread : ReadOutcome
  contents : Text → ReadOutcome

-- What a strict JSON decoder answers: not a value, a value and something behind it, a value alone.
pub data Decoded (A : Type 0) : Type 0 where
  malformed : Decoded A
  trailing : A → Decoded A
  whole : A → Decoded A

pub data FileError : Type 0 where
  open_failed read_failed too_large parse_failed trailing_data unsupported_version : FileError
  metadata_invalid invalid_event too_many_checks invalid_check_id invalid_status : FileError
  invalid_counters encode_failed : FileError

pub data Outcome {ℓ} (A : Type ℓ) : Type ℓ where
  done : A → Outcome A
  failed : FileError → Outcome A

infixl 5 ◌>>=◌ ◌>>◌
abbrev pub ◌>>=◌ {ℓ κ} : {A : Type ℓ} {B : Type κ} → Outcome A → (A → Outcome B) → Outcome B
done a >>= f = f a
failed e >>= f = failed e

abbrev pub ◌>>◌ {ℓ} : {B : Type ℓ} → Outcome (Unit {0}) → Outcome B → Outcome B
m >> k = m >>= λ _. k

-- `if test { return error }`
abbrev pub refuse : Bool → FileError → Outcome (Unit {0})
refuse true e = failed e
refuse false e = done tt

-- io.ReadAll of a reader limited to one byte more than `limit`, and the test that follows it.
unfoldable pub read_limited : ℕ → Text → Outcome Text
read_limited limit text =
    let read = take (suc limit) text in
    if ltb limit (length read) then failed too_large else done read

-- json.Decoder with DisallowUnknownFields, and the second `Decode` that must find the end.
abbrev pub decoded : {A : Type 0} → Decoded A → Outcome A
decoded malformed = failed parse_failed
decoded (trailing a) = failed trailing_data
decoded (whole a) = done a

take_of_length-le : (n : ℕ) (s : Text) → length s ≤ n → take n s ≡ s
take_of_length-le zero [] h = refl
take_of_length-le zero (b ∷ s) h = absurd (omega arith)
take_of_length-le (suc n) [] h = refl
take_of_length-le (suc n) (b ∷ s) h = ap (◌∷◌ b) (take_of_length-le n s (omega arith))

-- A file within the limit is read whole.
pub read_limited-fits : (limit : ℕ) (s : Text) → length s ≤ limit → read_limited limit s ≡ done s
unfolding read_limited
read_limited-fits limit s h = rw (take_of_length-le (suc limit) s (omega arith)) (ground arith)

-- What was read is within the limit.
pub read_limited-bound : (limit : ℕ) (s t : Text) → read_limited limit s ≡ done t → length t ≤ limit
unfolding read_limited
read_limited-bound limit s t h = ground (arith, length-take (suc limit) s)

-- A successful outcome satisfies the predicate.
abbrev pub Ensures {ℓ κ} : {A : Type ℓ} → (A → Type κ) → Outcome A → Type κ
Ensures P (done a) = P a
Ensures P (failed e) = Unit

pub Ensures-done {ℓ κ} :
    {A : Type ℓ} (P : A → Type κ) (m : Outcome A) (a : A) → Ensures P m → m ≡ done a → P a
Ensures-done P m a h e = subst (Ensures P) e h

pub Ensures->>= {ℓ μ κ ν} :
    {A : Type ℓ} {B : Type μ} (P : A → Type κ) (Q : B → Type ν) (m : Outcome A) (f : A → Outcome B)
    → Ensures P m
    → ((a : A) → P a → Ensures Q (f a))
    → Ensures Q (m >>= f)
Ensures->>= P Q (done a) f h k = k a h
Ensures->>= P Q (failed e) f h k = tt

pub Ensures-refuse {κ} :
    {B : Type 0} (Q : B → Type κ) (b : Bool) (e : FileError) (m : Outcome B)
    → (b ≡ false → Ensures Q m)
    → Ensures Q (refuse b e >> m)
Ensures-refuse Q true e m h = tt
Ensures-refuse Q false e m h = h refl

pub Ensures-true {ℓ} : {A : Type ℓ} (m : Outcome A) → Ensures (λ a. Unit {0}) m
Ensures-true (done a) = tt
Ensures-true (failed e) = tt
