-- ===== src/Client/Ports.antt =====
-- The ports that `main` accepts.
use pire2pire.Base.{
  ℕ, ◌%◌, ◌^◌, ◌≤◌, ◌≡◌, false, inl, inr, Bool-cases, Option, none, some, List, [], ◌∷◌, Bytes,
  atoi, decimal, atoi-decimal, arith,
}
use pire2pire.Client.{
  Target, connect_to, usage, invalid_address, invalid_port, outside, check_port, check_addr, target,
}

-- From 1024 to 49151: the registered ports.
abbrev pub InRange : Target → Type 0
InRange usage = Unit
InRange invalid_address = Unit
InRange invalid_port = Unit
InRange (connect_to addr port) = (1024 ≤ port) × (port ≤ 49151)

outside-false : (p : ℕ) → outside 1024 49151 p ≡ false → (1024 ≤ p % 2 ^ 16) × (p % 2 ^ 16 ≤ 49151)
unfolding outside
outside-false p e = (ground (arith, e), ground (arith, e))

check_port-InRange : (addr port : ℕ) → InRange (check_port addr port)
unfolding check_port
check_port-InRange addr port = elim (Bool-cases (outside 1024 49151 port)) [
  | inl e ↦ rw e tt
  | inr e ↦ rw e (outside-false port e)
]

check_port-inside :
    (addr port : ℕ) → 1024 ≤ port → port ≤ 49151 → check_port addr port ≡ connect_to addr port
unfolding check_port outside
check_port-inside addr port l u = rw (small port u) ground (arith, l, u)
  where
    small : (p : ℕ) → p ≤ 49151 → p % 2 ^ 16 ≡ p
    small p u = omega arith

check_addr-InRange : (addr : Option ℕ) (port : Bytes) → InRange (check_addr addr port)
unfolding check_addr
check_addr-InRange none port = tt
check_addr-InRange (some a) port = check_port-InRange a (atoi port)

argv-InRange :
    (inet_aton : Bytes → Option ℕ) (localhost : ℕ) (argv : List Bytes)
    → InRange (target inet_aton localhost argv)
unfolding target
argv-InRange inet_aton localhost [] = tt
argv-InRange inet_aton localhost (name ∷ []) = (omega arith, omega arith)
argv-InRange inet_aton localhost (name ∷ ip ∷ []) = tt
argv-InRange inet_aton localhost (name ∷ ip ∷ port ∷ []) = check_addr-InRange (inet_aton ip) port
argv-InRange inet_aton localhost (name ∷ ip ∷ port ∷ w ∷ ws) = tt

-- Whatever the arguments, `main` connects to a port from 1024 to 49151, if it connects; and for an
-- address that `inet_aton` takes and a port in that range, given in decimal, it connects there.
pub target-InRange :
    (inet_aton : Bytes → Option ℕ) (localhost : ℕ) (argv : List Bytes) (name ip : Bytes)
    (addr port : ℕ)
    → inet_aton ip ≡ some addr
    → 1024 ≤ port
    → port ≤ 49151
    → InRange (target inet_aton localhost argv)
      × (target inet_aton localhost (name ∷ ip ∷ decimal port ∷ []) ≡ connect_to addr port)
unfolding target check_addr
target-InRange inet_aton localhost argv name ip addr port e l u = (
  argv-InRange inet_aton localhost argv,
  rw (e, atoi-decimal port (omega (arith, u))) (check_port-inside addr port l u),
)
