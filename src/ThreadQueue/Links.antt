-- ===== src/ThreadQueue/Links.antt =====
-- What a thread queue stands for: the list of its entries, first to last.
use mirai_os.Prelude.{
  ◌%◌, ◌^◌, ◌≡◌, ◌≢◌, refl, List, [], ◌∷◌, ◌++◌, arith, ◌∈◌, ◌∉◌, has, length, ◌||◌,
}
use mirai_os.Thread.{Ptr, null, ThreadQueueEntry, Store, update}

abbrev pub head_or : Ptr → List Ptr → Ptr
head_or d [] = d
head_or d (x ∷ xs) = x

abbrev pub last_or : Ptr → List Ptr → Ptr
last_or d [] = d
last_or d (x ∷ xs) = last_or x xs

-- The entries `xs` of queue `q` are linked both ways: `prev` stands before them, `stop` behind.
abbrev pub Links : (Ptr → ThreadQueueEntry) → Ptr → Ptr → Ptr → List Ptr → Type 0
Links es q prev stop [] = Unit
Links es q prev stop (x ∷ xs) =
    (x ≢ null)
    × ((es x).prev_thread ≡ prev)
    × ((es x).next_thread ≡ head_or stop xs)
    × ((es x).queue ≡ q)
    × (x ∉ xs)
    × Links es q x stop xs

-- Queue `q` holds the entries `xs`, first to last.
pub record IsQueue (st : Store) (q : Ptr) (xs : List Ptr) : Type 0 where
  pub first : (st.queues q).first ≡ head_or null xs
  pub last : (st.queues q).last ≡ last_or null xs
  pub count : (st.queues q).nrof_threads ≡ length xs % 2 ^ 32
  pub links : Links st.entries q null null xs

-- Links read the entries of their list alone.
pub Links-frame :
    (es fs : Ptr → ThreadQueueEntry) (q prev stop : Ptr) (xs : List Ptr)
    → ((p : Ptr) → p ∈ xs → fs p ≡ es p)
    → Links es q prev stop xs
    → Links fs q prev stop xs
Links-frame es fs q prev stop [] same l = tt
Links-frame es fs q prev stop (x ∷ xs) same l = (
  l.0,
  ground (arith, same x),
  ground (arith, same x),
  ground (arith, same x),
  l.4,
  Links-frame es fs q x stop xs (λ p h. same p (ground arith)) l.5,
)

-- A write to an entry outside the list.
pub Links-update :
    (es : Ptr → ThreadQueueEntry) (q prev stop : Ptr) (xs : List Ptr) (p : Ptr)
    (e : ThreadQueueEntry)
    → p ∉ xs
    → Links es q prev stop xs
    → Links (update es p e) q prev stop xs
Links-update es q prev stop xs p e out l =
    Links-frame es (update es p e) q prev stop xs (λ a h. ground arith) l

-- What an operation on queue `q` leaves alone: every entry outside `xs`, every other queue, the
-- threads and the processors.
pub record Keeps (st st' : Store) (q : Ptr) (xs : List Ptr) : Type 0 where
  pub entries : (p : Ptr) → p ∉ xs → st'.entries p ≡ st.entries p
  pub queues : (r : Ptr) → r ≢ q → st'.queues r ≡ st.queues r
  pub threads : st'.threads ≡ st.threads
  pub cpus : st'.cpus ≡ st.cpus

-- A queue that shares no entry with the changed ones is as it was.
pub Keeps-IsQueue :
    {st st' : Store} {q : Ptr} {xs : List Ptr} (r : Ptr) (ys : List Ptr)
    → Keeps st st' q xs
    → r ≢ q
    → ((p : Ptr) → p ∈ ys → p ∉ xs)
    → IsQueue st r ys
    → IsQueue st' r ys
Keeps-IsQueue {st} {st'} r ys k ne apart is = record {
  first = ground (arith, k.queues r);
  last = ground (arith, k.queues r);
  count = ground (arith, k.queues r);
  links =
      Links-frame st.entries st'.entries r null null ys (λ p h. k.entries p (apart p h)) is.links;
}

pub has-append : (a : Ptr) (xs ys : List Ptr) → has a (xs ++ ys) ≡ (has a xs || has a ys)
has-append a [] ys = refl
has-append a (x ∷ xs) ys = ground (arith, has-append a xs ys)

pub mem-last_or : (x : Ptr) (xs : List Ptr) → last_or x xs ∈ (x ∷ xs)
mem-last_or x [] = ground arith
mem-last_or x (y ∷ xs) = ground (arith, mem-last_or y xs)

pub last_or-snoc : (d n : Ptr) (xs : List Ptr) → last_or d (xs ++ n ∷ []) ≡ n
last_or-snoc d n [] = refl
last_or-snoc d n (x ∷ xs) = last_or-snoc x n xs

pub ne_of_mem : (a b : Ptr) (xs : List Ptr) → a ∈ xs → b ∉ xs → b ≢ a
ne_of_mem a b xs h k e = cc

pub ne_of_mem_sym : (a b : Ptr) (xs : List Ptr) → a ∈ xs → b ∉ xs → a ≢ b
ne_of_mem_sym a b xs h k e = cc

pub Links-last_or :
    (es : Ptr → ThreadQueueEntry) (q prev stop y : Ptr) (ys : List Ptr)
    → Links es q prev stop (y ∷ ys)
    → last_or y ys ≢ null
Links-last_or es q prev stop y [] l = l.0
Links-last_or es q prev stop y (z ∷ zs) l = Links-last_or es q y stop z zs l.5

pub mem-append_left : (a : Ptr) (xs ys : List Ptr) → a ∈ xs → a ∈ (xs ++ ys)
mem-append_left a xs ys h = ground (arith, has-append a xs ys)

pub mem-append_right : (a : Ptr) (xs ys : List Ptr) → a ∈ ys → a ∈ (xs ++ ys)
mem-append_right a xs ys h = ground (arith, has-append a xs ys)

pub mem-head_or : (d : Ptr) (xs : List Ptr) → head_or d xs ∈ (d ∷ xs)
mem-head_or d [] = ground arith
mem-head_or d (x ∷ xs) = ground arith

-- The links of the entry `y` in the middle of a queue.
pub record Between (es : Ptr → ThreadQueueEntry) (q prev y : Ptr) (xs ys : List Ptr) : Type 0 where
  pub ne_null : y ≢ null
  pub queue : (es y).queue ≡ q
  pub prev_thread : (es y).prev_thread ≡ last_or prev xs
  pub next_thread : (es y).next_thread ≡ head_or null ys
  pub not_before : y ∉ xs
  pub not_behind : y ∉ ys

pub Links-Between :
    (es : Ptr → ThreadQueueEntry) (q prev y : Ptr) (xs ys : List Ptr)
    → Links es q prev null (xs ++ y ∷ ys)
    → Between es q prev y xs ys
Links-Between es q prev y [] ys l = record {
  ne_null = l.0;
  queue = l.3;
  prev_thread = l.1;
  next_thread = l.2;
  not_before = refl;
  not_behind = l.4;
}
Links-Between es q prev y (x ∷ xs) ys l =
    let b = Links-Between es q x y xs ys l.5 in
    record {
      ne_null = b.ne_null;
      queue = b.queue;
      prev_thread = b.prev_thread;
      next_thread = b.next_thread;
      not_before = ground (arith, b.not_before, has-append x xs (y ∷ ys), l.4);
      not_behind = b.not_behind;
    }

-- An entry before `y` is none behind it.
pub Links-apart :
    (es : Ptr → ThreadQueueEntry) (q prev y p : Ptr) (xs ys : List Ptr)
    → Links es q prev null (xs ++ y ∷ ys)
    → p ∈ xs
    → p ∉ ys
Links-apart es q prev y p [] ys l m = cc
Links-apart es q prev y p (x ∷ xs) ys l m =
    ground (arith, has-append x xs (y ∷ ys), l.4, Links-apart es q x y p xs ys l.5)

pub Links-ne_null :
    (es : Ptr → ThreadQueueEntry) (q prev stop p : Ptr) (xs : List Ptr)
    → Links es q prev stop xs
    → p ∈ xs
    → p ≢ null
Links-ne_null es q prev stop p [] l m = absurd (ground arith)
Links-ne_null es q prev stop p (x ∷ xs) l m = ground (arith, Links-ne_null es q x stop p xs l.5)

pub last_or-append : (d y : Ptr) (xs ys : List Ptr) → last_or d (xs ++ y ∷ ys) ≡ last_or y ys
last_or-append d y [] ys = refl
last_or-append d y (x ∷ xs) ys = last_or-append x y xs ys
