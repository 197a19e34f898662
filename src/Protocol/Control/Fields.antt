-- ===== src/Protocol/Control/Fields.antt =====
-- Which fields the validators accept, described without them.
use p2p_transmission.Prelude.{
  ℕ, ◌≤◌, ◌<◌, ◌≡◌, refl, ◌↔◌, Bool, true, false, not, [], ◌∷◌, All, any, all, Option, none, some,
  arith, ok, reject_if, >>=-eq-ok,
}
use p2p_transmission.Prelude.Text.{Text, text, byte_len, is_control, is_ascii_hexdigit}
use p2p_transmission.Protocol.Limits.{
  max_file_name_bytes, max_mime_bytes, max_id_bytes, is_token_char, validate_text, validate_token,
}
use p2p_transmission.Protocol.Control.{
  FileManifest, is_separator, validate_blake3, validate_mime, validate_file,
}
use p2p_transmission.Protocol.Control.Files.{reject_if-ok}

pub any_iff : (p : ℕ → Bool) (s : Text) → (any p s ≡ false) ↔ All (λ (c : ℕ). p c ≡ false) s
any_iff p [] = (λ h. tt, λ h. refl)
any_iff p (c ∷ s) = (
  λ h. (ground arith, (any_iff p s).0 (ground arith)),
  λ (h, t). ground (arith, (any_iff p s).1 t),
)

pub all_iff : (p : ℕ → Bool) (s : Text) → (all p s ≡ true) ↔ All (λ (c : ℕ). p c ≡ true) s
all_iff p [] = (λ h. tt, λ h. refl)
all_iff p (c ∷ s) = (
  λ h. (ground arith, (all_iff p s).0 (ground arith)),
  λ (h, t). ground (arith, (all_iff p s).1 t),
)

-- A text of 1 to `max` bytes without control characters.
pub record IsLine (max : ℕ) (value : Text) : Type 0 where
  pub nonempty : 0 < byte_len value
  pub fits : byte_len value ≤ max
  pub printable : All (λ (c : ℕ). is_control c ≡ false) value

-- A text of 1 to 64 bytes of ASCII letters, digits, `_` and `-`.
pub record IsToken (value : Text) : Type 0 where
  pub nonempty : 0 < byte_len value
  pub fits : byte_len value ≤ max_id_bytes
  pub token_chars : All (λ (c : ℕ). is_token_char c ≡ true) value

pub validate_text_iff :
    (value field : Text) (max : ℕ) → (validate_text value field max ≡ ok tt) ↔ IsLine max value
unfolding validate_text
validate_text_iff value field max = (
  λ h. record {
    nonempty = ground arith;
    fits = ground arith;
    printable = (any_iff is_control value).0 (ground arith);
  },
  λ l. ground (arith, l.nonempty, l.fits, (any_iff is_control value).1 l.printable),
)

token_chars_iff :
    (value : Text)
    → (any (λ (c : ℕ). not (is_token_char c)) value ≡ false)
      ↔ All (λ (c : ℕ). is_token_char c ≡ true) value
token_chars_iff [] = (λ h. tt, λ h. refl)
token_chars_iff (c ∷ s) = (
  λ h. (ground arith, (token_chars_iff s).0 (ground arith)),
  λ (h, t). ground (arith, (token_chars_iff s).1 t),
)

token-printable :
    (value : Text)
    → All (λ (c : ℕ). is_token_char c ≡ true) value
    → All (λ (c : ℕ). is_control c ≡ false) value
token-printable [] h = tt
token-printable (c ∷ s) (h, t) = (ground arith, token-printable s t)

pub validate_token_iff : (value field : Text) → (validate_token value field ≡ ok tt) ↔ IsToken value
unfolding validate_token
validate_token_iff value field = (
  λ h.
      let (_, t, h₁) = >>=-eq-ok (validate_text value field max_id_bytes) _ h in
      let l = (validate_text_iff value field max_id_bytes).0 t in
      record {
        nonempty = l.nonempty;
        fits = l.fits;
        token_chars = (token_chars_iff value).0 (reject_if-ok _ _ h₁);
      },
  λ v.
      rw
        (
          (validate_text_iff value field max_id_bytes).1 (record {
            nonempty = v.nonempty;
            fits = v.fits;
            printable = token-printable value v.token_chars;
          }),
          (token_chars_iff value).1 v.token_chars,
        )
        refl,
)

-- 64 hexadecimal digits.
abbrev pub IsBlake3 : Text → Type 0
IsBlake3 value = (byte_len value ≡ 64) × All (λ (c : ℕ). is_ascii_hexdigit c ≡ true) value

pub validate_blake3_iff :
    (value field : Text) → (validate_blake3 value field ≡ ok tt) ↔ IsBlake3 value
unfolding validate_blake3
validate_blake3_iff value field = (
  λ h. (ground arith, (all_iff is_ascii_hexdigit value).0 (ground arith)),
  λ (n, a). ground (arith, (all_iff is_ascii_hexdigit value).1 a),
)

abbrev pub IsMime : Option Text → Type 0
IsMime none = Unit
IsMime (some mime) = IsLine max_mime_bytes mime

validate_mime_iff : (mime : Option Text) → (validate_mime mime ≡ ok tt) ↔ IsMime mime
validate_mime_iff none = (λ h. tt, λ h. refl)
validate_mime_iff (some mime) = validate_text_iff mime (text "mime") max_mime_bytes

-- A file that a manifest may offer: its name is not a path.
pub record IsFile (file : FileManifest) : Type 0 where
  pub id : IsToken file.file_id
  pub name : IsLine max_file_name_bytes file.name
  pub no_path : All (λ (c : ℕ). is_separator c ≡ false) file.name
  pub mime : IsMime file.mime

pub validate_file_iff : (file : FileManifest) → (validate_file file ≡ ok tt) ↔ IsFile file
unfolding validate_file
validate_file_iff file = (
  λ h.
      let (_, t, h₁) = >>=-eq-ok (validate_token file.file_id _) _ h in
      let (_, n, h₂) = >>=-eq-ok (validate_text file.name _ max_file_name_bytes) _ h₁ in
      let (_, s, m) = >>=-eq-ok (reject_if (any is_separator file.name) _) _ h₂ in
      record {
        id = (validate_token_iff file.file_id _).0 t;
        name = (validate_text_iff file.name _ max_file_name_bytes).0 n;
        no_path = (any_iff is_separator file.name).0 (reject_if-ok _ _ s);
        mime = (validate_mime_iff file.mime).0 m;
      },
  λ v.
      rw
        (
          (validate_token_iff file.file_id (text "file_id")).1 v.id,
          (validate_text_iff file.name (text "file_name") max_file_name_bytes).1 v.name,
          (any_iff is_separator file.name).1 v.no_path,
        )
        ((validate_mime_iff file.mime).1 v.mime),
)
