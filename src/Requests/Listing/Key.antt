-- ===== src/Requests/Listing/Key.antt =====
-- The keys that `get_md5` writes.
use pire2pire.Base.{
  ℕ, ◌*◌, ◌/◌, ◌%◌, ◌<◌, ◌≡◌, refl, sym, subst, ◌∙◌, ap, ap₂, Bool, true, ◌&&◌, ◌||◌, some, [], ◌∷◌,
  Bytes, leb, is_digit, length, All, arith,
}
use pire2pire.Requests.Listing.{hex_digit, hex_byte, hex, DirEntry, get_md5}

abbrev pub IsByte : ℕ → Type 0
IsByte b = b < 256

-- A digit or a letter from a to f.
abbrev pub is_hex : ℕ → Bool
is_hex c = is_digit c || (leb b'a' c && leb c b'f')

pub length-hex : (d : Bytes) → length (hex d) ≡ 2 * length d
unfolding hex hex_byte
length-hex [] = omega arith
length-hex (b ∷ d) = omega (arith, length-hex d)

hex_digit-is_hex : (n : ℕ) → n < 16 → is_hex (hex_digit n) ≡ true
unfolding hex_digit
hex_digit-is_hex n h = ground arith

pub hex-is_hex : (d : Bytes) → All IsByte d → All (λ c. is_hex c ≡ true) (hex d)
unfolding hex hex_byte
hex-is_hex [] h = tt
hex-is_hex (b ∷ d) h = (
  hex_digit-is_hex (b / 16) (omega (arith, h.0)),
  (hex_digit-is_hex (b % 16) (omega arith), hex-is_hex d h.1),
)

hex_digit-injective : (m n : ℕ) → m < 16 → n < 16 → hex_digit m ≡ hex_digit n → m ≡ n
unfolding hex_digit
hex_digit-injective m n hm hn e = ground arith

first : ℕ → Bytes → ℕ
first d [] = d
first d (x ∷ xs) = x

rest : Bytes → Bytes
rest [] = []
rest (x ∷ xs) = xs

hex_byte-injective :
    (b c : ℕ)
    → b < 256
    → c < 256
    → hex_digit (b / 16) ≡ hex_digit (c / 16)
    → hex_digit (b % 16) ≡ hex_digit (c % 16)
    → b ≡ c
hex_byte-injective b c hb hc e f = omega (
  arith,
  hex_digit-injective (b / 16) (c / 16) (omega arith) (omega arith) e,
  hex_digit-injective (b % 16) (c % 16) (omega arith) (omega arith) f,
)

pub hex-injective : (d d' : Bytes) → All IsByte d → All IsByte d' → hex d ≡ hex d' → d ≡ d'
unfolding hex hex_byte first rest
hex-injective [] [] h h' e = refl
hex-injective [] (c ∷ d') h h' e = absurd (ground arith)
hex-injective (b ∷ d) [] h h' e = absurd (ground arith)
hex-injective (b ∷ d) (c ∷ d') h h' e =
    ap₂ ◌∷◌ (hex_byte-injective b c h.0 h'.0 (ap (first 0) e) (ap (λ s. first 0 (rest s)) e))
      (hex-injective d d' h.1 h'.1 (ap (λ s. rest (rest s)) e))

pub get_md5-hex : (e : DirEntry) (key : Bytes) → get_md5 e ≡ some key → hex e.digest ≡ key
unfolding get_md5
get_md5-hex e key k = ground (arith, k)

-- The key of a file is 32 digits or letters from a to f, as the cache wants it, and two files have
-- the same key only when their MD5 digests, of 16 bytes, are the same.
pub get_md5-key :
    (e e' : DirEntry) (key : Bytes)
    → All IsByte e.digest
    → All IsByte e'.digest
    → length e.digest ≡ 16
    → get_md5 e ≡ some key
    → get_md5 e' ≡ some key
    → (length key ≡ 32) × All (λ c. is_hex c ≡ true) key × (e.digest ≡ e'.digest)
get_md5-key e e' key h h' n k k' =
    let hk = get_md5-hex e key k in
    (
      omega (arith, ap length (sym hk), length-hex e.digest),
      subst (All (λ c. is_hex c ≡ true)) hk (hex-is_hex e.digest h),
      hex-injective e.digest e'.digest h h' (hk ∙ sym (get_md5-hex e' key k')),
    )
