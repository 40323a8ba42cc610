-- ===== src/Handler/Identify/Address.antt =====
-- An address and a port as two daemons write them to each other, and how the parser takes them.
use pire2pire.Base.{
  ℕ, ◌≡◌, refl, true, false, ◌||◌, some, [], ◌∷◌, ◌++◌, Bytes, ◌==◌, strchr, is_digit, decimal,
  decimal-IsNumeral, IsNumeral, All, All-append, All-map, arith,
}
use pire2pire.CmdParser.{is_a_delimiter}
use pire2pire.CmdParser.Plain.{IsWord, is_option}

-- A dotted address: digits and dots, one at least.
unfoldable pub IsAddress : Bytes → Type 0
IsAddress [] = false ≡ true
IsAddress (c ∷ cs) = All (λ d. (is_digit d || d == b'.') ≡ true) (c ∷ cs)

abbrev pub endpoint : Bytes → ℕ → Bytes
endpoint ip port = ip ++ b':' ∷ decimal port

digit-no_delimiter : (d : ℕ) → is_digit d ≡ true → is_a_delimiter d ≡ false
unfolding is_a_delimiter
digit-no_delimiter d h = ground arith

address-no_delimiter : (d : ℕ) → (is_digit d || d == b'.') ≡ true → is_a_delimiter d ≡ false
unfolding is_a_delimiter
address-no_delimiter d h = ground arith

pub numeral-no_delimiter : (w : Bytes) → IsNumeral w → All (λ d. is_a_delimiter d ≡ false) w
unfolding IsNumeral
numeral-no_delimiter [] h = tt
numeral-no_delimiter (c ∷ cs) h = (digit-no_delimiter c h.0, All-map digit-no_delimiter cs h.1)

pub endpoint-IsWord : (ip : Bytes) (port : ℕ) → IsAddress ip → IsWord (endpoint ip port)
unfolding IsAddress is_a_delimiter
endpoint-IsWord [] port h = absurd (ground arith)
endpoint-IsWord (c ∷ cs) port h = (
  refl,
  All-append (λ d. is_a_delimiter d ≡ false) (c ∷ cs) (b':' ∷ decimal port)
      (All-map address-no_delimiter (c ∷ cs) h)
      (refl, numeral-no_delimiter (decimal port) (decimal-IsNumeral port)),
)

pub endpoint-no_option :
    (ip : Bytes) (port : ℕ) → IsAddress ip → is_option (endpoint ip port) ≡ false
unfolding IsAddress is_option IsNumeral
endpoint-no_option [] port h = absurd (ground arith)
endpoint-no_option (c ∷ []) port h = long c (decimal port) (decimal-IsNumeral port) h.0
  where
    long :
        (d : ℕ) (w : Bytes)
        → IsNumeral w
        → (is_digit d || d == b'.') ≡ true
        → is_option (d ∷ b':' ∷ w) ≡ false
    long d [] n k = absurd (ground arith)
    long d (e ∷ w) n k = ground arith
endpoint-no_option (c ∷ d ∷ []) port h = ground (arith, h.0)
endpoint-no_option (c ∷ d ∷ e ∷ cs) port h = ground (arith, h.0)

pub strchr-endpoint :
    (ip : Bytes) (rest : Bytes)
    → All (λ d. (is_digit d || d == b'.') ≡ true) ip
    → strchr b':' (ip ++ b':' ∷ rest) ≡ some (ip, rest)
unfolding strchr
strchr-endpoint [] rest h = refl
strchr-endpoint (c ∷ cs) rest h = ground (arith, strchr-endpoint cs rest h.1)
