-- ===== src/Pooled/Blocks/Buffer.antt =====
-- How much of a file the loop of daemon_request_ready.c can write from its buffer.
use native.Mathlib.Decide.{dec_lt}
use pire2pire.Base.{
  ℕ, zero, suc, ◌+◌, ◌<◌, ◌≤◌, ◌≡◌, refl, ◌⊎◌, sym, inl, inr, List, [], ◌∷◌, Bytes, drop, length,
  length-drop, length-append, take-append, All, arith,
}
use pire2pire.Requests.Receive.{Recv, received, recv_failed}
use pire2pire.Pooled.Blocks.{complete, Block, fill, slice, put, block_loop}

-- What `recv` can give: as many bytes as the buffer holds.
unfoldable pub Fits : ℕ → Recv → Type 0
Fits n (received c) = length c ≤ n
Fits n recv_failed = Unit

length-fill : (c buffer : Bytes) → length c ≤ length buffer → length (fill c buffer) ≡ length buffer
unfolding fill
length-fill c buffer h =
    omega (arith, length-append c (drop (length c) buffer), length-drop (length c) buffer)

put-complete :
    (buffer : Bytes) (at n : ℕ) (rest : Block)
    → (put at (slice buffer at n) rest).status ≡ complete
    → (n ≡ 0 ⊎ at + n ≤ length buffer) × (rest.status ≡ complete)
unfolding put slice
put-complete buffer at zero rest h = (inl refl, h)
put-complete buffer at (suc n) rest h = ground arith

chunk_complete :
    (buffer : Bytes) (begin size sum n : ℕ)
    → sum < size
    → (n ≡ 0 ⊎ begin + sum + n ≤ length buffer)
    → (sum + n < size → begin + size ≤ length buffer)
    → begin + size ≤ length buffer
chunk_complete buffer begin size sum n l (inl e) more = more (omega arith)
chunk_complete buffer begin size sum n l (inr e) more = elim (dec_lt (sum + n) size) [
  | yes m ↦ more m
  | no m ↦ omega arith
]

-- The defect: the loop never comes to its end for a block that goes beyond the first bytes of
-- the file, as many as the buffer holds.
pub block_loop-within :
    (rs : List Recv) (buffer : Bytes) (begin size sum : ℕ)
    → sum < size
    → All (Fits (length buffer)) rs
    → (block_loop buffer begin size sum rs).status ≡ complete
    → begin + size ≤ length buffer
unfolding block_loop Fits
block_loop-within [] buffer begin size sum l f h = absurd (ground arith)
block_loop-within (recv_failed ∷ rs) buffer begin size sum l f h = absurd (ground arith)
block_loop-within (received c ∷ rs) buffer begin size sum l f h =
    let same = length-fill c buffer f.0 in
    let (here, more) =
      put-complete (fill c buffer) (begin + sum) (length c)
        (block_loop (fill c buffer) begin size (sum + length c) rs) (ground (arith, h)) in
    chunk_complete buffer begin size sum (length c) l (ap-sum same here) (λ m. omega (
      arith,
      same,
      block_loop-within rs (fill c buffer) begin size (sum + length c) m (rw same f.1) more,
    ))
  where
    ap-sum :
        length (fill c buffer) ≡ length buffer
        → (length c ≡ 0 ⊎ begin + sum + length c ≤ length (fill c buffer))
        → (length c ≡ 0 ⊎ begin + sum + length c ≤ length buffer)
    ap-sum e h = rw (sym e) h

pub block_loop-one_chunk :
    (c buffer : Bytes)
    → 0 < length c
    → length c ≤ length buffer
    → block_loop buffer 0 (length c) 0 (received c ∷ [])
      ≡ record { pieces = (0, c) ∷ []; status = complete }
unfolding block_loop put slice fill
block_loop-one_chunk [] buffer l h = absurd (ground arith)
block_loop-one_chunk (b ∷ c) buffer l h = ground (
  arith,
  length-append (b ∷ c) (drop (length (b ∷ c)) buffer),
  take-append (b ∷ c) (drop (length (b ∷ c)) buffer),
)
