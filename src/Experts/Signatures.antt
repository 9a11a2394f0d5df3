-- ===== src/Experts/Signatures.antt =====
-- What `validatePhotoBytes` of packages/domain/src/experts/photo-validation.ts accepts.
use salesforce_expert_suppor.Prelude.{
  ℕ, zero, suc, ◌≤◌, ◌≡◌, ◌⊎◌, refl, ap, true, some, List, [], ◌∷◌, ==_iff, length, includes,
  ℕ_discrete, arith, take, drop, inl, inr, In, includes_iff,
}
use salesforce_expert_suppor.Experts.Photos.{
  ContentType, png, jpeg, webp, other, type_number, is_byte, has_bytes_at, png_signature,
  jpeg_signature, riff, webp_mark, is_png, is_jpeg, is_webp, detect, accepted, numbers_of,
  validate_photo_bytes,
}

is_byte-drop :
    (i value : ℕ) (bytes : List ℕ)
    → is_byte i value bytes ≡ true
    → drop i bytes ≡ value ∷ drop (suc i) bytes
is_byte-drop i value [] h = ground arith
is_byte-drop zero value (b ∷ bytes) h = ap (λ x. x ∷ bytes) ((==_iff b value).0 h)
is_byte-drop (suc i) value (b ∷ bytes) h = is_byte-drop i value bytes h

has_bytes_at-take :
    (values : List ℕ) (i : ℕ) (bytes : List ℕ)
    → has_bytes_at i values bytes ≡ true
    → take (length values) (drop i bytes) ≡ values
unfolding has_bytes_at
has_bytes_at-take [] i bytes h = refl
has_bytes_at-take (value ∷ values) i bytes h =
    let first = is_byte-drop i value bytes (ground arith) in
    let rest = has_bytes_at-take values (suc i) bytes (ground arith) in
    rw first (ap (λ xs. value ∷ xs) rest)

-- What the bytes of each type begin with.
abbrev pub SignedAs : ContentType → List ℕ → Type 0
SignedAs png bytes = take 8 bytes ≡ png_signature
SignedAs jpeg bytes = take 3 bytes ≡ jpeg_signature
SignedAs webp bytes = (take 4 bytes ≡ riff) × (take 4 (drop 8 bytes) ≡ webp_mark)
SignedAs (other n) bytes = ⊥

type_number_injective : (s t : ContentType) → type_number s ≡ type_number t → s ≡ t
type_number_injective png t h = ground arith
type_number_injective jpeg t h = ground arith
type_number_injective webp t h = ground arith
type_number_injective (other n) t h = ground arith

includes-In :
    (t : ContentType) (types : List ContentType)
    → In (type_number t) (numbers_of types)
    → In t types
includes-In t [] h = h
includes-In t (s ∷ types) (inl e) = inl (type_number_injective _ _ e)
includes-In t (s ∷ types) (inr h) = inr (includes-In t types h)

png-SignedAs : (bytes : List ℕ) → is_png bytes ≡ true → SignedAs png bytes
png-SignedAs bytes h = has_bytes_at-take png_signature 0 bytes (ground arith)

jpeg-SignedAs : (bytes : List ℕ) → is_jpeg bytes ≡ true → SignedAs jpeg bytes
jpeg-SignedAs bytes h = has_bytes_at-take jpeg_signature 0 bytes (ground arith)

webp-SignedAs : (bytes : List ℕ) → is_webp bytes ≡ true → SignedAs webp bytes
webp-SignedAs bytes h = (
  has_bytes_at-take riff 0 bytes (ground arith),
  has_bytes_at-take webp_mark 8 bytes (ground arith),
)

detect_cases :
    (bytes : List ℕ) (t : ContentType)
    → detect bytes ≡ some t
    → ((t ≡ png) × (is_png bytes ≡ true))
      ⊎ (((t ≡ jpeg) × (is_jpeg bytes ≡ true)) ⊎ ((t ≡ webp) × (is_webp bytes ≡ true)))
unfolding detect
detect_cases bytes t h = ground arith

detect-SignedAs : (bytes : List ℕ) (t : ContentType) → detect bytes ≡ some t → SignedAs t bytes
detect-SignedAs bytes t h = elim (detect_cases bytes t h) [
  | inl (e, is) ↦ rw e (png-SignedAs bytes is)
  | inr (inl (e, is)) ↦ rw e (jpeg-SignedAs bytes is)
  | inr (inr (e, is)) ↦ rw e (webp-SignedAs bytes is)
]

accepted_facts :
    (bytes : List ℕ) (declared t : ContentType) (max_bytes : ℕ) (allowed : List ContentType)
    → validate_photo_bytes bytes declared max_bytes allowed ≡ accepted t
    → (type_number t ≡ type_number declared)
      × (1 ≤ length bytes)
      × (length bytes ≤ max_bytes)
      × (includes ℕ_discrete (type_number declared) (numbers_of allowed) ≡ true)
      × (detect bytes ≡ some t)
unfolding validate_photo_bytes
accepted_facts bytes declared t max_bytes allowed h = ground arith

-- When `validatePhotoBytes` accepts an upload as an image of type `t`, then `t` is the type that was
-- declared and one of the allowed types, the file is not empty and not above the cap, and its bytes
-- begin with the signature of `t`.
pub validate_photo_bytes-accepted :
    (bytes : List ℕ) (declared t : ContentType) (max_bytes : ℕ) (allowed : List ContentType)
    → validate_photo_bytes bytes declared max_bytes allowed ≡ accepted t
    → (t ≡ declared)
      × In t allowed
      × (1 ≤ length bytes)
      × (length bytes ≤ max_bytes)
      × SignedAs t bytes
validate_photo_bytes-accepted bytes declared t max_bytes allowed h =
    let (e, nonempty, capped, included, found) =
      accepted_facts bytes declared t max_bytes allowed h in
    (
      type_number_injective t declared e,
      includes-In t allowed
          (rw e ((includes_iff ℕ_discrete (type_number declared) (numbers_of allowed)).0 included)),
      nonempty,
      capped,
      detect-SignedAs bytes t found,
    )
