-- ===== src/Experts/Photos.antt =====
-- packages/domain/src/experts/photo-validation.ts: is an upload the image that it claims to be? Bytes
-- are numbers. A content type is one of the three that the signatures name, or another; messages
-- are left out.
use salesforce_expert_suppor.Prelude.{
  ℕ, zero, suc, Bool, true, false, not, ◌&&◌, Option, none, some, List, [], ◌∷◌, ◌==◌, ltb, leb,
  length, includes, if◌then◌else◌, ℕ_discrete,
}

pub data ContentType : Type 0 where
  png jpeg webp : ContentType
  other : ℕ → ContentType

-- The source compares content types as strings; here each type has a number of its own, and these
-- are compared.
abbrev pub type_number : ContentType → ℕ
type_number png = 0
type_number jpeg = 1
type_number webp = 2
type_number (other n) = suc (suc (suc n))

-- `b[i] === value`
abbrev pub is_byte : ℕ → ℕ → List ℕ → Bool
is_byte i value [] = false
is_byte zero value (b ∷ bytes) = b == value
is_byte (suc i) value (b ∷ bytes) = is_byte i value bytes

-- The conjunction of such tests on consecutive places.
unfoldable pub has_bytes_at : ℕ → List ℕ → List ℕ → Bool
has_bytes_at i [] bytes = true
has_bytes_at i (value ∷ values) bytes = is_byte i value bytes && has_bytes_at (suc i) values bytes

abbrev pub png_signature : List ℕ
png_signature = 137 ∷ 80 ∷ 78 ∷ 71 ∷ 13 ∷ 10 ∷ 26 ∷ 10 ∷ []

abbrev pub jpeg_signature : List ℕ
jpeg_signature = 255 ∷ 216 ∷ 255 ∷ []

abbrev pub riff : List ℕ
riff = 82 ∷ 73 ∷ 70 ∷ 70 ∷ []

abbrev pub webp_mark : List ℕ
webp_mark = 87 ∷ 69 ∷ 66 ∷ 80 ∷ []

abbrev pub is_png : List ℕ → Bool
is_png bytes = leb 8 (length bytes) && has_bytes_at 0 png_signature bytes

abbrev pub is_jpeg : List ℕ → Bool
is_jpeg bytes = leb 3 (length bytes) && has_bytes_at 0 jpeg_signature bytes

abbrev pub is_webp : List ℕ → Bool
is_webp bytes =
    leb 12 (length bytes) && (has_bytes_at 0 riff bytes && has_bytes_at 8 webp_mark bytes)

-- `SIGNATURES.find`
unfoldable pub detect : List ℕ → Option ContentType
detect bytes =
    if is_png bytes
    then some png
    else if is_jpeg bytes
    then some jpeg
    else if is_webp bytes
    then some webp
    else none

pub data PhotoVerdict : Type 0 where
  empty too_large unsupported_type not_an_image : PhotoVerdict
  type_mismatch : ContentType → PhotoVerdict
  accepted : ContentType → PhotoVerdict

abbrev judged : ContentType → Option ContentType → PhotoVerdict
judged declared none = not_an_image
judged declared (some found) =
    if not (type_number found == type_number declared) then type_mismatch found else accepted found

abbrev pub numbers_of : List ContentType → List ℕ
numbers_of [] = []
numbers_of (t ∷ types) = type_number t ∷ numbers_of types

-- `validatePhotoBytes`
unfoldable pub validate_photo_bytes : List ℕ → ContentType → ℕ → List ContentType → PhotoVerdict
validate_photo_bytes bytes declared max_bytes allowed =
    if length bytes == 0
    then empty
    else if ltb max_bytes (length bytes)
    then too_large
    else if not (includes ℕ_discrete (type_number declared) (numbers_of allowed))
    then unsupported_type
    else judged declared (detect bytes)
