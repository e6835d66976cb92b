-- ===== src/RateLimit/Window.antt =====
-- In no window of time are more requests of a visitor admitted than the limit.
use aiops_control_lab.Base.{
  ◌≡◌, refl, sym, ap, subst, ◌∙◌, ℕ, ◌+◌, ◌≤◌, ◌<◌, String, Bool, Bool-cases, true, false, not,
  ◌&&◌, ◌==◌, eq_iff, eq_refl, inl, inr, some, List, [], ◌∷◌, ◌++◌, length, length-append, lookup,
  insert, lookup-insert, count, leb, ltb, le→leb, leb→le, leb-false→lt, arith, if◌then◌else◌,
}
use mathlib.Core.Path.{subst₂}
use aiops_control_lab.RateLimit.{Limiter, queue_of, drop_expired, allow}

-- Calls of `allow` with the key and the time of each, the last one first.
abbrev pub Calls : Type 0
Calls = List (String × ℕ)

-- No call is earlier than one before it, and none is later than `now`.
unfoldable pub Ordered : ℕ → Calls → Type 0
Ordered now [] = Unit
Ordered now ((key, t) ∷ calls) = (t ≤ now) × Ordered t calls

-- The limiter after the calls, and the calls that it admitted.
unfoldable pub serve : Calls → Limiter → Calls × Limiter
serve [] l = ([], l)
serve ((key, t) ∷ calls) l =
    let (admitted, m) = serve calls l in
    let (allowed, n) = allow key t m in (if allowed then (key, t) ∷ admitted else admitted, n)

-- A request of the key in the window that ends at `end`.
abbrev pub in_window : ℕ → String → ℕ → String × ℕ → Bool
in_window window key end (k, t) = k == key && (leb t end && ltb end (t + window))

abbrev recent : ℕ → ℕ → ℕ → Bool
recent window end t = ltb end (t + window)

count-drop_expired :
    (window current end : ℕ) (times : List ℕ)
    → current ≤ end
    → count (recent window end) (drop_expired window current times)
      ≡ count (recent window end) times
unfolding drop_expired
count-drop_expired window current end [] le = refl
count-drop_expired window current end (t ∷ times) le =
    ground (arith, count-drop_expired window current end times le)

count-append_one :
    (p : ℕ → Bool) (times : List ℕ) (t : ℕ) → count p (times ++ (t ∷ [])) ≡ count p (t ∷ times)
count-append_one p [] t = refl
count-append_one p (x ∷ xs) t = ground (arith, count-append_one p xs t)

count-length : {A : Type 0} (p : A → Bool) (xs : List A) → count p xs ≤ length xs
count-length p [] = omega arith
count-length p (x ∷ xs) = ground (arith, count-length p xs)

length-drop_expired :
    (window current : ℕ) (times : List ℕ)
    → length (drop_expired window current times) ≤ length times
unfolding drop_expired
length-drop_expired window current [] = omega arith
length-drop_expired window current (t ∷ times) =
    ground (arith, length-drop_expired window current times)

queue_of-insert :
    (k key : String) (times : List ℕ) (l : Limiter)
    → queue_of key (record l { requests = insert k times l.requests })
      ≡ (if k == key then times else queue_of key l)
unfolding queue_of
queue_of-insert k key times l =
    let known = lookup-insert k key times l.requests in
    elim (Bool-cases (k == key)) [
      | inl same ↦
          let e : lookup key (insert k times l.requests) ≡ some times = rw same at known in
          rw (e, same, queue_of) refl
      | inr other ↦
          let e : lookup key (insert k times l.requests) ≡ lookup key l.requests =
            rw other at known in
          rw (e, other, queue_of) refl
    ]

-- The queue that a call of `allow` stores.
abbrev stored : ℕ → ℕ → ℕ → List ℕ → List ℕ
stored limit window t times =
    let kept = drop_expired window t times in
    if leb limit (length kept) then kept else kept ++ (t ∷ [])

abbrev admits : ℕ → ℕ → ℕ → List ℕ → Bool
admits limit window t times = not (leb limit (length (drop_expired window t times)))

-- A call of `allow` in one equation.
allow_lem :
    (k : String) (t : ℕ) (l : Limiter)
    → allow k t l ≡ (
      admits l.limit l.window t (queue_of k l),
      record l { requests = insert k (stored l.limit l.window t (queue_of k l)) l.requests },
    )
unfolding allow
allow_lem k t l =
    elim (Bool-cases (leb l.limit (length (drop_expired l.window t (queue_of k l))))) [
      | inl full ↦ rw full refl
      | inr space ↦ rw space refl
    ]

-- The queue of a key holds every admitted request of a window that ends now or later, and no more than
-- the limit.
record Holds (limit window : ℕ) (key : String) (now : ℕ) (admitted : Calls) (times : List ℕ)
    : Type 0 where
  covered :
      (end : ℕ)
      → now ≤ end
      → count (in_window window key end) admitted ≤ count (recent window end) times
  few : length times ≤ limit

one_more :
    (limit window : ℕ) (key : String) (past t : ℕ) (admitted : Calls) (times : List ℕ)
    → past ≤ t
    → Holds limit window key past admitted times
    → (end : ℕ) → t ≤ end
    → count (in_window window key end) ((key, t) ∷ admitted)
      ≤ count (recent window end) (drop_expired window t times ++ (t ∷ []))
one_more limit window key past t admitted times le h end later =
    let same = count-drop_expired window t end times later in
    let last = count-append_one (recent window end) (drop_expired window t times) t in
    let before = h.covered end (omega arith) in
    rw (eq_refl key, le→leb t end later, last) (ground (arith, same, before))

stored-Holds :
    (limit window : ℕ) (key : String) (past t : ℕ) (admitted : Calls) (times : List ℕ)
    → past ≤ t
    → Holds limit window key past admitted times
    → Holds limit window key t
        (if admits limit window t times then (key, t) ∷ admitted else admitted)
        (stored limit window t times)
stored-Holds limit window key past t admitted times le h =
    elim (Bool-cases (leb limit (length (drop_expired window t times)))) [
      | inl full ↦ rw full (record {
        covered = λ end later.
            omega (arith, count-drop_expired window t end times later, h.covered end (omega arith));
        few = omega (arith, length-drop_expired window t times, h.few);
      })
      | inr space ↦ rw space (record {
        covered = λ end later. one_more limit window key past t admitted times le h end later;
        few = omega (
          arith,
          length-append (drop_expired window t times) (t ∷ []),
          leb-false→lt limit (length (drop_expired window t times)) space,
        );
      })
    ]

other-Holds :
    (limit window : ℕ) (k key : String) (past t : ℕ) (admitted : Calls) (times : List ℕ)
    (more : Bool)
    → (k == key) ≡ false
    → past ≤ t
    → Holds limit window key past admitted times
    → Holds limit window key t (if more then (k, t) ∷ admitted else admitted) times
other-Holds limit window k key past t admitted times true other le h = record {
  covered = λ end later. rw other (h.covered end (omega arith));
  few = h.few;
}
other-Holds limit window k key past t admitted times false other le h = record {
  covered = λ end later. h.covered end (omega arith);
  few = h.few;
}

-- At the time `now` every key's queue is as it should be, and the settings are those of the start.
record Sound (limit window : ℕ) (key : String) (now : ℕ) (out : Calls × Limiter) : Type 0 where
  same_limit : out.1.limit ≡ limit
  same_window : out.1.window ≡ window
  holds : Holds limit window key now out.0 (queue_of key out.1)

allow-Holds :
    (key k : String) (past t : ℕ) (admitted : Calls) (l : Limiter)
    → past ≤ t
    → ((j : String) → Holds l.limit l.window j past admitted (queue_of j l))
    → Holds l.limit l.window key t
        (if (allow k t l).0 then (k, t) ∷ admitted else admitted)
        (queue_of key (allow k t l).1)
allow-Holds key k past t admitted l le h =
    rw (allow_lem k t l, queue_of-insert k key (stored l.limit l.window t (queue_of k l)) l)
      (elim (Bool-cases (k == key)) [
        | inl same ↦ rw same (
            subst
              (λ j.
                Holds l.limit l.window j t
                  (if admits l.limit l.window t (queue_of k l) then (k, t) ∷ admitted else admitted)
                  (stored l.limit l.window t (queue_of k l)))
              ((eq_iff k key).0 same)
              (stored-Holds l.limit l.window k past t admitted (queue_of k l) le (h k)))
        | inr other ↦ rw other (
            other-Holds l.limit l.window k key past t admitted (queue_of key l)
              (admits l.limit l.window t (queue_of k l)) other le (h key))
      ])

allow-Sound :
    (limit window : ℕ) (key k : String) (past t : ℕ) (admitted : Calls) (l : Limiter)
    → past ≤ t
    → ((j : String) → Sound limit window j past (admitted, l))
    → Sound limit window key t
        (if (allow k t l).0 then (k, t) ∷ admitted else admitted, (allow k t l).1)
allow-Sound limit window key k past t admitted l le h =
    let n = (h k).same_limit in
    let w = (h k).same_window in
    record {
      same_limit = ap (λ (out : Bool × Limiter). out.1.limit) (allow_lem k t l) ∙ n;
      same_window = ap (λ (out : Bool × Limiter). out.1.window) (allow_lem k t l) ∙ w;
      holds =
          subst₂
            (λ a b.
              Holds a b key t (if (allow k t l).0 then (k, t) ∷ admitted else admitted)
                (queue_of key (allow k t l).1))
            n w
            (allow-Holds key k past t admitted l le (λ j.
              subst₂ (λ a b. Holds a b j past admitted (queue_of j l)) (sym n) (sym w)
                (h j).holds));
    }

serve-Sound :
    (key : String) (now : ℕ) (calls : Calls) (l : Limiter)
    → l.requests ≡ []
    → Ordered now calls
    → Sound l.limit l.window key now (serve calls l)
unfolding serve Ordered queue_of lookup
serve-Sound key now [] l start order = record {
  same_limit = refl;
  same_window = refl;
  holds = record { covered = λ end later. omega arith; few = rw start (omega arith) };
}
serve-Sound key now ((k, t) ∷ calls) l start order =
    let (admitted, m) = serve calls l in
    let known =
      allow-Sound l.limit l.window key k t t admitted m (omega arith)
        (λ j. serve-Sound j t calls l start order.1) in
    record {
      same_limit = known.same_limit;
      same_window = known.same_window;
      holds = record {
        covered = λ end later. known.holds.covered end (omega (arith, order.0));
        few = known.holds.few;
      };
    }

uncounted :
    (window : ℕ) (key k : String) (end t : ℕ) (more : Bool) (admitted : Calls)
    → end < t
    → count (in_window window key end) (if more then (k, t) ∷ admitted else admitted)
      ≡ count (in_window window key end) admitted
uncounted window key k end t true admitted late = ground arith
uncounted window key k end t false admitted late = refl

-- From a limiter without requests, whatever calls come, none earlier than one before it: of the
-- admitted requests of a key, no more than the limit fall into a window, whenever it ends.
pub window_limit :
    (key : String) (end now : ℕ) (calls : Calls) (l : Limiter)
    → l.requests ≡ []
    → Ordered now calls
    → count (in_window l.window key end) (serve calls l).0 ≤ l.limit
unfolding serve Ordered
window_limit key end now [] l start order = omega arith
window_limit key end now ((k, t) ∷ calls) l start order = elim (Bool-cases (leb t end)) [
  | inl late ↦
      let known = (serve-Sound key t ((k, t) ∷ calls) l start (omega arith, order.1)).holds in
      omega (
        arith,
        known.covered end (leb→le t end late),
        count-length (recent l.window end) (queue_of key (serve ((k, t) ∷ calls) l).1),
        known.few,
      )
  | inr soon ↦
      let (admitted, m) = serve calls l in
      omega (
        arith,
        uncounted l.window key k end t (allow k t m).0 admitted (leb-false→lt t end soon),
        window_limit key end t calls l start order.1,
      )
]
