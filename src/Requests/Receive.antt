-- ===== src/Requests/Receive.antt =====
-- The download loop of trunk/daemon/daemon_requests/daemon_request_ready.c, and its inner loop that
-- writes what it received.
use mathlib.Core.List.{append-nil}
use pire2pire.Base.{
  ℕ, zero, suc, ◌+◌, ◌-◌, ◌<◌, ◌≡◌, refl, ap, ◌∙◌, List, [], ◌∷◌, ◌++◌, map, replicate, Bytes,
  if◌then◌else◌, ltb, take, take-length, length, All, arith,
}

-- What `recv` and `write` return; a connection that the other side closed gives no bytes.
pub data Recv : Type 0 where
  received : Bytes → Recv
  recv_failed : Recv

pub data Write : Type 0 where
  wrote : ℕ → Write
  write_failed : Write

-- `waiting`: the answers given so far end before the loop does.
pub data Status : Type 0 where
  complete failed waiting : Status

-- The bytes that went to the file, the writes not used, and how the loop ended.
pub record Written : Type 0 where
  pub file : Bytes
  pub rest : List Write
  pub status : Status

-- `while (nb_received)`: every `write` starts at the beginning of `buffer`.
pub write_loop : Bytes → ℕ → List Write → Written
write_loop buffer zero ws = record { file = []; rest = ws; status = complete }
write_loop buffer (suc n) [] = record { file = []; rest = []; status = waiting }
write_loop buffer (suc n) (write_failed ∷ ws) = record { file = []; rest = ws; status = failed }
write_loop buffer (suc n) (wrote k ∷ ws) =
    let r = write_loop buffer (suc n - k) ws in
    record { file = take k buffer ++ r.file; rest = r.rest; status = r.status }

pub record Download : Type 0 where
  pub file : Bytes
  pub status : Status

-- `while (nb_received_sum < file->size)`
pub download_loop : ℕ → ℕ → List Recv → List Write → Download
unfolding write_loop
download_loop size sum [] ws = record {
  file = [];
  status = if ltb sum size then waiting else complete;
}
download_loop size sum (recv_failed ∷ rs) ws = record {
  file = [];
  status = if ltb sum size then failed else complete;
}
download_loop size sum (received buffer ∷ rs) ws =
    let w = write_loop buffer (length buffer) ws in
    let r = download_loop size (sum + length buffer) rs w.rest in
    if ltb sum size
    then elim w.status [
      | complete ↦ record { file = w.file ++ r.file; status = r.status }
      | failed ↦ record { file = w.file; status = failed }
      | waiting ↦ record { file = w.file; status = waiting }
    ]
    else record { file = []; status = complete }

unfoldable pub total : List Bytes → ℕ
total [] = 0
total (c ∷ cs) = length c + total cs

unfoldable pub concat : List Bytes → Bytes
concat [] = []
concat (c ∷ cs) = c ++ concat cs

abbrev pub IsNonempty : Bytes → Type 0
IsNonempty c = 0 < length c

-- Each `write` takes the whole buffer.
pub whole_writes : List Bytes → List Write
whole_writes [] = []
whole_writes (c ∷ cs) = wrote (length c) ∷ whole_writes cs

write_loop-whole :
    (buffer : Bytes) (n : ℕ) (ws : List Write)
    → 0 < n
    → write_loop buffer n (wrote n ∷ ws)
      ≡ record { file = take n buffer; rest = ws; status = complete }
unfolding write_loop
write_loop-whole buffer zero ws h = absurd (omega arith)
write_loop-whole buffer (suc n) ws h =
    after (suc n - suc n) (omega arith)
    ∙ ap (λ f. record { file = f; rest = ws; status = complete }) (append-nil (take (suc n) buffer))
  where
    with_rest : Written → Written
    with_rest r = record { file = take (suc n) buffer ++ r.file; rest = r.rest; status = r.status }

    after :
        (m : ℕ)
        → m ≡ 0
        → with_rest (write_loop buffer m ws)
          ≡ record { file = take (suc n) buffer ++ []; rest = ws; status = complete }
    after zero e = refl
    after (suc m) e = absurd (omega arith)

write_loop-twice :
    (buffer : Bytes) (n k : ℕ)
    → 0 < k
    → k < n
    → write_loop buffer n (wrote k ∷ wrote (n - k) ∷ [])
      ≡ record { file = take k buffer ++ take (n - k) buffer; rest = []; status = complete }
unfolding write_loop
write_loop-twice buffer zero k h l = absurd (omega arith)
write_loop-twice buffer (suc n) k h l =
    ap (λ r. record { file = take k buffer ++ r.file; rest = r.rest; status = r.status })
      (write_loop-whole buffer (suc n - k) [] (omega arith))

download_loop-step :
    (size sum : ℕ) (c : Bytes) (rs : List Recv) (ws : List Write) (w : Written)
    → sum < size
    → write_loop c (length c) ws ≡ w
    → w.status ≡ complete
    → download_loop size sum (received c ∷ rs) ws ≡ record {
      file = w.file ++ (download_loop size (sum + length c) rs w.rest).file;
      status = (download_loop size (sum + length c) rs w.rest).status;
    }
unfolding download_loop
download_loop-step size sum c rs ws w h e s = ground arith

-- When every write takes all that was received, no chunk is empty, and what is received adds up to
-- the bytes of the file that are left, the file that is written is what was received, in order,
-- and the loop ends.
pub download_loop-whole :
    (cs : List Bytes) (sum : ℕ)
    → All IsNonempty cs
    → download_loop (sum + total cs) sum (map received cs) (whole_writes cs)
      ≡ record { file = concat cs; status = complete }
unfolding download_loop total concat whole_writes
download_loop-whole [] sum h = ground arith
download_loop-whole (c ∷ cs) sum h =
    download_loop-step (sum + total (c ∷ cs)) sum c (map received cs) (whole_writes (c ∷ cs)) _
      (omega (arith, h.0)) (write_loop-whole c (length c) (whole_writes cs) h.0) refl
    ∙ ap (λ f. record { file = f ++ rest.file; status = rest.status }) (take-length c)
    ∙ ap (λ r. record { file = c ++ r.file; status = r.status })
        (ap (λ n. download_loop n (sum + length c) (map received cs) (whole_writes cs))
            (omega arith)
          ∙ download_loop-whole cs (sum + length c) h.1)
  where
    rest : Download
    rest = download_loop (sum + total (c ∷ cs)) (sum + length c) (map received cs) (whole_writes cs)

-- The defect: after a write that takes a part of the buffer, and not all, the loop writes the
-- start of the buffer again in place of what is left of it, and still counts the whole buffer as
-- received.
pub download_loop-repeats :
    (buffer : Bytes) (k : ℕ)
    → 0 < k
    → k < length buffer
    → download_loop
        (length buffer)
        0
        (received buffer ∷ [])
        (wrote k ∷ wrote (length buffer - k) ∷ [])
      ≡ record { file = take k buffer ++ take (length buffer - k) buffer; status = complete }
unfolding download_loop write_loop
download_loop-repeats buffer k h l =
    download_loop-step (length buffer) 0 buffer [] _ _ (omega arith)
      (write_loop-twice buffer (length buffer) k h l) refl
    ∙ ground (arith, append-nil (take k buffer ++ take (length buffer - k) buffer))

-- The defect: when the other side closes the connection before the whole file came, the loop goes on
-- for ever and writes nothing, whatever the number of rounds.
pub download_loop-closed :
    (n size sum : ℕ) (ws : List Write)
    → sum < size
    → download_loop size sum (replicate n (received [])) ws ≡ record { file = []; status = waiting }
unfolding download_loop write_loop
download_loop-closed zero size sum ws h = ground arith
download_loop-closed (suc n) size sum ws h =
    ground (arith, download_loop-closed n size (sum + 0) ws)
