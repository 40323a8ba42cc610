-- ===== src/Requests/Ready/Downloads.antt =====
-- The list of the downloads in progress, and the sizes that it shows.
use pire2pire.Base.{
  ℕ, ◌-◌, ◌^◌, ◌≤◌, ◌<◌, ◌≡◌, refl, Bool, true, false, some, List, [], ◌∷◌, ◌++◌, Bytes, ◌==◌,
  if◌then◌else◌, ◌↔◌, arith,
}
use pire2pire.Requests.Ready.{DlFile, off_of_size, dl_file_new, dl_file_add, dl_file_remove}

-- No node of the list has the address.
pub holds_addr : ℕ → List DlFile → Bool
holds_addr a [] = false
holds_addr a (t ∷ q) = if t.addr == a then true else holds_addr a q

remove-front :
    (p : List DlFile) (f : DlFile) (q : List DlFile)
    → holds_addr f.addr p ≡ false
    → dl_file_remove (p ++ f ∷ q) f ≡ p ++ q
unfolding dl_file_remove holds_addr
remove-front [] f q n = ground arith
remove-front (t ∷ p) f q n = ground (arith, remove-front p f q)

remove_absent :
    (p : List DlFile) (f : DlFile) → holds_addr f.addr p ≡ false → dl_file_remove p f ≡ p
unfolding dl_file_remove holds_addr
remove_absent [] f n = refl
remove_absent (t ∷ p) f n = ground (arith, remove_absent p f)

-- Whatever downloads were added in front of it since, at other addresses, the removal of a download
-- gives the list as if it had not been added; and a download that is not in the list removes
-- nothing.
pub dl_file_remove-dl_file_add :
    (p q : List DlFile) (f : DlFile)
    → holds_addr f.addr p ≡ false
    → (dl_file_remove (p ++ dl_file_add q f) f ≡ p ++ q) × (dl_file_remove p f ≡ p)
unfolding dl_file_add
dl_file_remove-dl_file_add p q f n = (remove-front p f q n, remove_absent p f n)

-- The size that the list shows for a file is right exactly when it is below 2^31: `dl_file_new` takes
-- it as an int. A file of 2^31 bytes, and up to 2^32 less one, shows a negative size.
pub dl_file_new-total_size :
    (a : ℕ) (path : Bytes) (size : ℕ)
    → size < 2 ^ 64 - 2 ^ 31
    → (f : DlFile) × (dl_file_new (some a) path size ≡ some f)
      × ((f.total_size ≡ size) ↔ (size < 2 ^ 31))
      × (2 ^ 31 ≤ size → size < 2 ^ 32 → 2 ^ 63 ≤ f.total_size)
unfolding dl_file_new off_of_size
dl_file_new-total_size a path size h =
    (_, refl, (λ e. ground arith, λ l. ground arith), λ l u. ground arith)
