-- ===== src/Requests/Serve/Whole.antt =====
-- A file that one daemon sends and the other downloads.
use mathlib.Core.List.{append-nil}
use pire2pire.Base.{
  ℕ, zero, suc, ◌-◌, ◌^◌, ◌≤◌, ◌<◌, ◌≡◌, refl, ap, ◌∙◌, List, [], ◌∷◌, ◌++◌, map, Bytes, take,
  take-length, length, length-append, All, arith,
}
use pire2pire.Requests.Receive.{
  complete as downloaded, received, download_loop, download_loop-whole, concat, total, whole_writes,
  IsNonempty,
}
use pire2pire.Requests.Serve.{Read, got, Send, sent, complete, Sent, subtract, send_loop, send_file}

-- Each `send` takes the whole buffer.
unfoldable pub whole_sends : List Bytes → List Send
whole_sends [] = []
whole_sends (c ∷ cs) = sent (length c) ∷ whole_sends cs

subtract_lem : (n k : ℕ) → k ≤ n → n < 2 ^ 64 → subtract n k ≡ n - k
unfolding subtract
subtract_lem n k h l = omega arith

send_loop-done :
    (buffer : Bytes) (t m : ℕ) (ss : List Send)
    → m ≡ 0
    → send_loop buffer t m ss ≡ record { bytes = []; rest = ss; to_be_sent = t; status = complete }
unfolding send_loop
send_loop-done buffer t zero ss e = refl
send_loop-done buffer t (suc m) ss e = absurd (omega arith)

send_loop-whole :
    (buffer : Bytes) (t n : ℕ) (ss : List Send)
    → 0 < n
    → n ≤ t
    → t < 2 ^ 64
    → send_loop buffer t n (sent n ∷ ss)
      ≡ record { bytes = take n buffer; rest = ss; to_be_sent = t - n; status = complete }
unfolding send_loop
send_loop-whole buffer t zero ss h l b = absurd (omega arith)
send_loop-whole buffer t (suc n) ss h l b =
    rw
      (
        send_loop-done buffer (subtract t (suc n)) (suc n - suc n) ss (omega arith),
        subtract_lem t (suc n) l b,
      )
      (ap (λ f. record { bytes = f; rest = ss; to_be_sent = t - suc n; status = complete })
        (append-nil (take (suc n) buffer)))

send_file-step :
    (t : ℕ) (c : Bytes) (rs : List Read) (ss : List Send) (s : Sent)
    → 0 < t
    → send_loop c t (length c) ss ≡ s
    → s.status ≡ complete
    → send_file t (got c ∷ rs) ss ≡ record {
      bytes = s.bytes ++ (send_file s.to_be_sent rs s.rest).bytes;
      status = (send_file s.to_be_sent rs s.rest).status;
    }
unfolding send_file
send_file-step zero c rs ss s h e f = absurd (omega arith)
send_file-step (suc t) c rs ss s h e f = ground arith

-- What is read goes out in order.
send_file-whole :
    (t : ℕ) (cs : List Bytes)
    → All IsNonempty cs
    → total cs ≡ t
    → t < 2 ^ 64
    → send_file t (map got cs) (whole_sends cs) ≡ record { bytes = concat cs; status = complete }
unfolding send_file whole_sends total concat
send_file-whole zero [] a e b = refl
send_file-whole (suc t) [] a e b = absurd (omega (arith, e))
send_file-whole t (c ∷ cs) a e b =
    send_file-step t c (map got cs) (whole_sends (c ∷ cs)) _ (omega (arith, a.0, e))
      (send_loop-whole c t (length c) (whole_sends cs) a.0 (omega (arith, e)) b) refl
    ∙ (rw (take-length c, send_file-whole (t - length c) cs a.1 (omega (arith, e)) (omega arith))
        refl)

total-concat : (cs : List Bytes) → total cs ≡ length (concat cs)
unfolding total concat
total-concat [] = refl
total-concat (c ∷ cs) = omega (arith, total-concat cs, length-append c (concat cs))

-- A file is read in chunks that are not empty and as long as `stat` said, below 2^64 bytes in all,
-- and every `send` takes what is in the buffer. Then the sender's loop ends, having sent the file.
-- When the other daemon receives those bytes, in chunks of its own that are not empty, and every
-- `write` takes what was received, its loop ends as well, and it wrote the same file.
pub download_loop-send_file :
    (size : ℕ) (cs cs' : List Bytes)
    → All IsNonempty cs
    → All IsNonempty cs'
    → total cs ≡ size
    → size < 2 ^ 64
    → concat cs' ≡ (send_file size (map got cs) (whole_sends cs)).bytes
    → (send_file size (map got cs) (whole_sends cs)
        ≡ record { bytes = concat cs; status = complete })
      × (download_loop size 0 (map received cs') (whole_writes cs')
          ≡ record { file = concat cs; status = downloaded })
download_loop-send_file size cs cs' a a' e b f =
    let whole = send_file-whole size cs a e b in
    let same : concat cs' ≡ concat cs = f ∙ ap (λ t. t.bytes) whole in
    (
      whole,
      ap (λ n. download_loop n 0 (map received cs') (whole_writes cs'))
            (omega (arith, e, total-concat cs, total-concat cs', ap length same))
          ∙ download_loop-whole cs' 0 a'
          ∙ ap (λ f'. record { file = f'; status = downloaded }) same,
    )
