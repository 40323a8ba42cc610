-- ===== src/Socket/Lines.antt =====
-- What `socket_getline` returns for the lines that a peer sends.
use mathlib.Core.List.{append_assoc}
use pire2pire.Base.{
  ℕ, ◌≡◌, refl, ap, ◌∙◌, false, none, some, List, [], ◌∷◌, ◌++◌, map, Bytes, ◌==◌, if◌then◌else◌,
  strchr, subst, All, All-map, Bool-cases, Option-cases, inl, inr, arith,
}
use pire2pire.Socket.{
  Recv, byte, Line, got, waiting, append_byte, getline_loop, socket_getline_with_trailer, c_string,
  cut_at, string_remove_trailer, remove_trailer_of, socket_getline,
}

-- A byte that is no NUL and ends no line.
abbrev pub IsPlain : ℕ → Type 0
IsPlain c = ((c == 0) ≡ false) × ((c == 10) ≡ false) × ((c == 13) ≡ false)

cut_at-cons : (c b : ℕ) (bs : Bytes) → cut_at c (b ∷ bs) ≡ (if b == c then [] else b ∷ cut_at c bs)
unfolding cut_at strchr
cut_at-cons c b bs = elim (Option-cases (strchr c bs)) [
  | inl n ↦ ground arith
  | inr ((front, back), f) ↦ ground arith
]

cut_at-absent : (c : ℕ) (s : Bytes) → All (λ b. (b == c) ≡ false) s → cut_at c s ≡ s
cut_at-absent c [] h = unfold cut_at strchr in refl
cut_at-absent c (b ∷ bs) h = ground (arith, cut_at-cons c b bs, cut_at-absent c bs h.1)

cut_at-found :
    (c : ℕ) (s rest : Bytes) → All (λ b. (b == c) ≡ false) s → cut_at c (s ++ c ∷ rest) ≡ s
cut_at-found c [] rest h = ground (arith, cut_at-cons c c rest)
cut_at-found c (b ∷ bs) rest h =
    ground (arith, cut_at-cons c b (bs ++ c ∷ rest), cut_at-found c bs rest h.1)

getline_loop-line :
    (acc line : Bytes) (es : List Recv)
    → All (λ b. (b == 10) ≡ false) line
    → getline_loop (some acc) (map byte line ++ byte 10 ∷ es)
      ≡ got (some (acc ++ (line ++ 10 ∷ []))) es
unfolding getline_loop append_byte
getline_loop-line acc [] es h = refl
getline_loop-line acc (c ∷ cs) es h = rw h.0 (
    getline_loop-line (acc ++ c ∷ []) cs es h.1
    ∙ ap (λ (m : Bytes). got (some m) es) (append_assoc acc (c ∷ []) (cs ++ 10 ∷ [])))

getline-line :
    (line : Bytes) (es : List Recv)
    → All (λ b. (b == 10) ≡ false) line
    → socket_getline_with_trailer (map byte line ++ byte 10 ∷ es) ≡ got (some (line ++ 10 ∷ [])) es
unfolding socket_getline_with_trailer getline_loop append_byte
getline-line [] es h = refl
getline-line (c ∷ cs) es h = rw h.0 (getline_loop-line (c ∷ []) cs es h.1)

c_string-plain : (s : Bytes) → All (λ b. (b == 0) ≡ false) s → c_string s ≡ s
unfolding c_string
c_string-plain [] h = refl
c_string-plain (c ∷ cs) h = ground (arith, c_string-plain cs h.1)

All-snoc : (P : ℕ → Type 0) (s : Bytes) (c : ℕ) → All P s → P c → All P (s ++ c ∷ [])
All-snoc P [] c h p = (p, tt)
All-snoc P (b ∷ bs) c h p = (h.0, All-snoc P bs c h.1 p)

remove_trailer-newline :
    (line : Bytes) → All IsPlain line → string_remove_trailer (line ++ 10 ∷ []) ≡ line
unfolding string_remove_trailer
remove_trailer-newline line h = rw (
  c_string-plain (line ++ 10 ∷ []) (All-snoc _ line 10 (All-map (λ c p. p.0) line h) refl),
  cut_at-absent 13 (line ++ 10 ∷ []) (All-snoc _ line 10 (All-map (λ c p. p.2) line h) refl),
  cut_at-found 10 line [] (All-map (λ c p. p.1) line h),
)

remove_trailer-return :
    (line : Bytes) → All IsPlain line → string_remove_trailer ((line ++ 13 ∷ []) ++ 10 ∷ []) ≡ line
unfolding string_remove_trailer
remove_trailer-return line h = rw (
  c_string-plain ((line ++ 13 ∷ []) ++ 10 ∷ []) (
      All-snoc _ (line ++ 13 ∷ []) 10 (All-snoc _ line 13 (All-map (λ c p. p.0) line h) refl) refl),
  append_assoc line (13 ∷ []) (10 ∷ []),
  cut_at-found 13 line (10 ∷ []) (All-map (λ c p. p.2) line h),
  cut_at-absent 10 line (All-map (λ c p. p.1) line h),
)

-- A line of plain bytes is received as it was sent, whether the peer ends it by "\n" or by "\r\n",
-- and what was sent behind it stays on the socket.
pub getline-plain :
    (line : Bytes) (es : List Recv)
    → All IsPlain line
    → (socket_getline (map byte line ++ byte 10 ∷ es) ≡ got (some line) es)
      × (socket_getline (map byte (line ++ 13 ∷ []) ++ byte 10 ∷ es) ≡ got (some line) es)
unfolding socket_getline remove_trailer_of
getline-plain line es h = (
  rw (getline-line line es (All-map (λ c p. p.1) line h))
      (ap (λ (m : Bytes). got (some m) es) (remove_trailer-newline line h)),
  rw (getline-line (line ++ 13 ∷ []) es (All-snoc _ line 13 (All-map (λ c p. p.1) line h) refl))
      (ap (λ (m : Bytes). got (some m) es) (remove_trailer-return line h)),
)

c_string-All : (s : Bytes) → All (λ b. (b == 0) ≡ false) (c_string s)
unfolding c_string
c_string-All [] = tt
c_string-All (c ∷ cs) = elim (Bool-cases (c == 0)) [
  | inl e ↦ rw e tt
  | inr e ↦ rw e (e, c_string-All cs)
]

-- What `cut_at` keeps is free of the byte, and has whatever all bytes had.
cut_at-All :
    (P : ℕ → Type 0) (c : ℕ) (s : Bytes)
    → All P s
    → All (λ b. P b × ((b == c) ≡ false)) (cut_at c s)
cut_at-All P c [] h = unfold cut_at strchr in tt
cut_at-All P c (b ∷ bs) h = elim (Bool-cases (b == c)) [
  | inl e ↦ rw (cut_at-cons c b bs, e) tt
  | inr e ↦ rw (cut_at-cons c b bs, e) ((h.0, e), cut_at-All P c bs h.1)
]

remove_trailer-IsPlain : (s : Bytes) → All IsPlain (string_remove_trailer s)
unfolding string_remove_trailer
remove_trailer-IsPlain s =
    All-map (λ c p. (p.0.0, p.1, p.0.1)) _
      (cut_at-All _ 10 _ (cut_at-All (λ b. (b == 0) ≡ false) 13 _ (c_string-All s)))

remove_trailer_of-IsPlain :
    (l : Line) {rest : List Recv} {line : Bytes}
    → remove_trailer_of l ≡ got (some line) rest
    → All IsPlain line
unfolding remove_trailer_of
remove_trailer_of-IsPlain waiting h = absurd (ground arith)
remove_trailer_of-IsPlain (got none es) h = absurd (ground arith)
remove_trailer_of-IsPlain (got (some m) es) h =
    subst (All IsPlain) (ground arith) (remove_trailer-IsPlain m)

-- Whatever a peer sends, a line that is received holds no NUL, no "\n" and no "\r".
pub getline-IsPlain :
    (es rest : List Recv) (line : Bytes)
    → socket_getline es ≡ got (some line) rest
    → All IsPlain line
unfolding socket_getline
getline-IsPlain es rest line h = remove_trailer_of-IsPlain (socket_getline_with_trailer es) h
