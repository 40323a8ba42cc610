-- ===== src/Requests/Search/Exclusive.antt =====
-- Who holds the lock of client_request_list.c, and who is sent the lines of daemon_request_file.c.
use pire2pire.Base.{
  ℕ, zero, suc, ◌+◌, ◌≤◌, ◌<◌, ◌≡◌, ◌⊎◌, inl, refl, Bool, true, false, Option, none, some, List, [],
  ◌∷◌, ◌==◌, arith,
}
use pire2pire.Requests.Search.{
  waiting, locked, listing, reset, finished, Thread, lister, fresh, ignored, holding, forwarded,
  Shared, move, move_at, Event, client_lists, file_comes, goes, step, run, start,
}

unfoldable pub bit : Bool → ℕ
bit true = 1
bit false = 0

-- Between `sem_wait` and `sem_post`.
unfoldable pub inside : Thread → ℕ
inside (lister c locked) = 1
inside (lister c listing) = 1
inside (lister c reset) = 1
inside t = 0

-- Asleep for the client.
unfoldable pub listing_for : ℕ → Thread → ℕ
unfolding bit
listing_for a (lister c listing) = bit (c == a)
listing_for a t = 0

-- Its "list" has been sent for the client.
unfoldable pub listed_for : ℕ → Thread → ℕ
unfolding bit
listed_for a (lister c listing) = bit (c == a)
listed_for a (lister c reset) = bit (c == a)
listed_for a (lister c finished) = bit (c == a)
listed_for a t = 0

-- A line that goes, or has gone, to the client.
unfoldable pub line_for : ℕ → Thread → ℕ
unfolding bit
line_for a (holding c) = bit (c == a)
line_for a (forwarded c) = bit (c == a)
line_for a t = 0

unfoldable pub count : (Thread → ℕ) → List Thread → ℕ
count f [] = 0
count f (t ∷ ts) = f t + count f ts

-- 1 when the client is `list_client`.
unfoldable pub is_client : ℕ → Option ℕ → ℕ
unfolding bit
is_client a none = 0
is_client a (some c) = bit (c == a)

-- Of the client `a`: at most one "list" is inside and the lock tells whether one is, `list_client` is
-- `a` when one for `a` is asleep, and a line for `a` comes after its "list". Of all threads, `n` are
-- inside, `m` asleep for `a`, `d` have listed for it and `g` hold a line for it.
record Holds (a n m d g : ℕ) (s : Shared) : Type 0 where
  one : n + bit s.list_lock ≡ 1
  client : m ≡ is_client a s.list_client
  lines : g ≡ 0 ⊎ 0 < d

listing_for-inside : (a : ℕ) (t : Thread) → listing_for a t ≤ inside t
unfolding listing_for inside bit
listing_for-inside a (lister c waiting) = omega arith
listing_for-inside a (lister c locked) = omega arith
listing_for-inside a (lister c listing) = ground arith
listing_for-inside a (lister c reset) = omega arith
listing_for-inside a (lister c finished) = omega arith
listing_for-inside a fresh = omega arith
listing_for-inside a ignored = omega arith
listing_for-inside a (holding c) = omega arith
listing_for-inside a (forwarded c) = omega arith

listing_for-listed_for : (a : ℕ) (t : Thread) → listing_for a t ≤ listed_for a t
unfolding listing_for listed_for bit
listing_for-listed_for a (lister c waiting) = omega arith
listing_for-listed_for a (lister c locked) = omega arith
listing_for-listed_for a (lister c listing) = omega arith
listing_for-listed_for a (lister c reset) = omega arith
listing_for-listed_for a (lister c finished) = omega arith
listing_for-listed_for a fresh = omega arith
listing_for-listed_for a ignored = omega arith
listing_for-listed_for a (holding c) = omega arith
listing_for-listed_for a (forwarded c) = omega arith

move-Holds :
    (a n m d g : ℕ) (s : Shared) (t : Thread)
    → m ≤ n
    → m ≤ d
    → Holds a (n + inside t) (m + listing_for a t) (d + listed_for a t) (g + line_for a t) s
    → let r = move s t in
      Holds a
        (n + inside r.1)
        (m + listing_for a r.1)
        (d + listed_for a r.1)
        (g + line_for a r.1)
        r.0
unfolding move inside listing_for listed_for line_for is_client bit
move-Holds a n m d g s (lister c waiting) l k h = record {
  one = ground (arith, h.one);
  client = ground (arith, h.one, h.client);
  lines = ground (arith, h.client, h.lines);
}
move-Holds a n m d g s (lister c locked) l k h = record {
  one = ground (arith, h.one);
  client = ground (arith, h.one, h.client);
  lines = ground (arith, h.lines);
}
move-Holds a n m d g s (lister c listing) l k h = record {
  one = ground (arith, h.one);
  client = ground (arith, h.one, h.client);
  lines = ground (arith, h.lines);
}
move-Holds a n m d g s (lister c reset) l k h = record {
  one = ground (arith, h.one);
  client = ground (arith, h.one, h.client);
  lines = ground (arith, h.lines);
}
move-Holds a n m d g s (lister c finished) l k h = h
move-Holds a n m d g s fresh l k h = record {
  one = ground (arith, h.one);
  client = ground (arith, h.one, h.client);
  lines = ground (arith, h.client, h.lines);
}
move-Holds a n m d g s (holding c) l k h = h
move-Holds a n m d g s (forwarded c) l k h = h
move-Holds a n m d g s ignored l k h = h

count-le :
    (f f' : Thread → ℕ) (le : (t : Thread) → f t ≤ f' t) (ts : List Thread)
    → count f ts ≤ count f' ts
unfolding count
count-le f f' le [] = omega arith
count-le f f' le (t ∷ ts) = omega (arith, le t, count-le f f' le ts)

-- Of all the threads in `ts` beside those of the numbers.
HoldsOf : ℕ → ℕ → ℕ → ℕ → ℕ → Shared → List Thread → Type 0
HoldsOf a n m d g s ts =
    Holds a (n + count inside ts) (m + count (listing_for a) ts) (d + count (listed_for a) ts)
      (g + count (line_for a) ts) s

moved-Holds :
    {a n m d g n' m' d' g' : ℕ} {s : Shared}
    → Holds a n m d g s
    → n ≡ n'
    → m ≡ m'
    → d ≡ d'
    → g ≡ g'
    → Holds a n' m' d' g' s
moved-Holds h e e' e'' e''' = record {
  one = omega (arith, h.one, e);
  client = ground (arith, h.client, e');
  lines = ground (arith, h.lines, e'', e''');
}

move_at-Holds :
    (a n m d g : ℕ) (s : Shared) (ts : List Thread) (i : ℕ)
    → m ≤ n
    → m ≤ d
    → HoldsOf a n m d g s ts
    → let r = move_at s ts i in HoldsOf a n m d g r.0 r.1
unfolding move_at HoldsOf count
move_at-Holds a n m d g s [] i l k h = h
move_at-Holds a n m d g s (t ∷ ts) zero l k h =
    moved-Holds
      (move-Holds a (n + count inside ts) (m + count (listing_for a) ts)
        (d + count (listed_for a) ts) (g + count (line_for a) ts) s t
        (omega (arith, l, count-le (listing_for a) inside (listing_for-inside a) ts))
        (omega (arith, k, count-le (listing_for a) (listed_for a) (listing_for-listed_for a) ts))
        (moved-Holds h (omega arith) (omega arith) (omega arith) (omega arith)))
      (omega arith) (omega arith) (omega arith) (omega arith)
move_at-Holds a n m d g s (t ∷ ts) (suc i) l k h =
    moved-Holds
      (move_at-Holds a (n + inside t) (m + listing_for a t) (d + listed_for a t) (g + line_for a t)
        s ts i (omega (arith, l, listing_for-inside a t))
        (omega (arith, k, listing_for-listed_for a t))
        (moved-Holds h (omega arith) (omega arith) (omega arith) (omega arith)))
      (omega arith) (omega arith) (omega arith) (omega arith)

step-Holds :
    (a : ℕ) (st : Shared × List Thread) (e : Event)
    → HoldsOf a 0 0 0 0 st.0 st.1
    → HoldsOf a 0 0 0 0 (step st e).0 (step st e).1
unfolding step HoldsOf count inside listing_for listed_for line_for
step-Holds a (s, ts) (client_lists c) h =
    moved-Holds h (omega arith) (omega arith) (omega arith) (omega arith)
step-Holds a (s, ts) file_comes h =
    moved-Holds h (omega arith) (omega arith) (omega arith) (omega arith)
step-Holds a (s, ts) (goes i) h = move_at-Holds a 0 0 0 0 s ts i (omega arith) (omega arith) h

run-HoldsOf :
    (a : ℕ) (st : Shared × List Thread) (es : List Event)
    → HoldsOf a 0 0 0 0 st.0 st.1
    → HoldsOf a 0 0 0 0 (run st es).0 (run st es).1
unfolding run
run-HoldsOf a st [] h = h
run-HoldsOf a st (e ∷ es) h = run-HoldsOf a (step st e) es (step-Holds a st e h)

start-HoldsOf : (a : ℕ) → HoldsOf a 0 0 0 0 start.0 start.1
unfolding start HoldsOf count is_client bit
start-HoldsOf a = record { one = refl; client = refl; lines = inl refl }

-- However the "list" of the clients and the "file" of the daemons are scheduled: at most one "list" is
-- between `sem_wait` and `sem_post`, and none is when the lock is free; for each client, one "list" is
-- asleep for it when it is `list_client`, and none otherwise.
pub run-exclusive :
    (a : ℕ) (es : List Event)
    → let (s, ts) = run start es in
      (count inside ts + bit s.list_lock ≡ 1)
      × (count (listing_for a) ts ≡ is_client a s.list_client)
unfolding HoldsOf
run-exclusive a es =
    let h = run-HoldsOf a start es (start-HoldsOf a) in
    (omega (arith, h.one), omega (arith, h.client))

-- However they are scheduled, a line of a "file" goes only to a client that has listed, though its
-- "list" may be over.
pub run-forwarded :
    (a : ℕ) (es : List Event)
    → 0 < count (line_for a) (run start es).1
    → 0 < count (listed_for a) (run start es).1
unfolding HoldsOf
run-forwarded a es h = ground (arith, (run-HoldsOf a start es (start-HoldsOf a)).lines)
