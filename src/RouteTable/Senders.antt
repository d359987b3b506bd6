-- ===== src/RouteTable/Senders.antt =====
-- src/dijkstra.c: how often a node is a sender of the announcements in the table.
use dhttp.Base.{
  ℕ, zero, suc, ◌+◌, ◌≤◌, ◌<◌, ◌≡◌, ◌≢◌, refl, ap, arith, List, [], ◌∷◌, length, length-append,
  get_or,
}
use dhttp.Darr.Words.{count, hit, count-append}
use dhttp.Ht.Chains.{stack_in}
use dhttp.Ht.Laws.{total}
use dhttp.Ht.Keys.{cmp_int}
use dhttp.Lsa.{Lsa, lsa_ht}
use dhttp.RouteTable.Routes.{NoRepeat}
use dhttp.RouteTable.{senders_in, senders}

-- the announcements of `x` in all chains
abbrev pub stacked : ℕ → List (List Lsa) → ℕ
stacked x [] = 0
stacked x (c ∷ cs) = length (stack_in lsa_ht x c) + stacked x cs

stacked-none :
    (x : ℕ) (cs : List (List Lsa))
    → ((i : ℕ) → stack_in lsa_ht x (get_or cs i []) ≡ [])
    → stacked x cs ≡ 0
stacked-none x [] e = refl
stacked-none x (c ∷ cs) e =
    let at : length (stack_in lsa_ht x c) ≡ 0 = ap length (e 0) in
    omega (arith, stacked-none x cs (λ i. e (suc i)))

-- all of them lie in one chain
pub stacked-one :
    (x h : ℕ) (cs : List (List Lsa))
    → h < length cs
    → ((i : ℕ) → h ≢ i → stack_in lsa_ht x (get_or cs i []) ≡ [])
    → stacked x cs ≡ length (stack_in lsa_ht x (get_or cs h []))
stacked-one x h [] l e = absurd (omega arith)
stacked-one x zero (c ∷ cs) l e =
    omega (arith, stacked-none x cs (λ i. e (suc i) (λ q. omega arith)))
stacked-one x (suc h) (c ∷ cs) l e =
    let at : length (stack_in lsa_ht x c) ≡ 0 = ap length (e 0 (λ q. omega arith)) in
    omega (arith, stacked-one x h cs (omega arith) (λ i ne. e (suc i) (λ q. ne (omega arith))))

count-senders_in :
    (g_nid x : ℕ) (c : List Lsa)
    → g_nid ≢ x
    → count x (senders_in g_nid c) ≡ length (stack_in lsa_ht x c)
unfolding cmp_int
count-senders_in g_nid x [] ne = refl
count-senders_in g_nid x (l ∷ c) ne = ground (arith, count-senders_in g_nid x c ne)

pub count-senders :
    (g_nid x : ℕ) (cs : List (List Lsa)) → g_nid ≢ x → count x (senders g_nid cs) ≡ stacked x cs
count-senders g_nid x [] ne = refl
count-senders g_nid x (c ∷ cs) ne = omega (
  arith,
  count-append x (senders_in g_nid c) (senders g_nid cs),
  count-senders_in g_nid x c ne,
  count-senders g_nid x cs ne,
)

own_not_in : (g_nid : ℕ) (c : List Lsa) → count g_nid (senders_in g_nid c) ≡ 0
own_not_in g_nid [] = refl
own_not_in g_nid (l ∷ c) = ground (arith, own_not_in g_nid c)

pub own_no_sender : (g_nid : ℕ) (cs : List (List Lsa)) → count g_nid (senders g_nid cs) ≡ 0
own_no_sender g_nid [] = refl
own_no_sender g_nid (c ∷ cs) = omega (
  arith,
  count-append g_nid (senders_in g_nid c) (senders g_nid cs),
  own_not_in g_nid c,
  own_no_sender g_nid cs,
)

length-senders_in :
    (g_nid : ℕ) (c : List Lsa)
    → length (senders_in g_nid c) + length (stack_in lsa_ht g_nid c) ≡ length c
unfolding cmp_int
length-senders_in g_nid [] = omega arith
length-senders_in g_nid (l ∷ c) = ground (arith, length-senders_in g_nid c)

pub length-senders :
    (g_nid : ℕ) (cs : List (List Lsa)) → length (senders g_nid cs) + stacked g_nid cs ≡ total cs
length-senders g_nid [] = omega arith
length-senders g_nid (c ∷ cs) = omega (
  arith,
  length-append (senders_in g_nid c) (senders g_nid cs),
  length-senders_in g_nid c,
  length-senders g_nid cs,
)

pub count-get_or : (l : List ℕ) (j : ℕ) → j < length l → 1 ≤ count (get_or l j 0) l
count-get_or [] j l = absurd (omega arith)
count-get_or (x ∷ xs) zero l = ground arith
count-get_or (x ∷ xs) (suc j) l = omega (arith, count-get_or xs j (omega arith))

pub NoRepeat-count : (l : List ℕ) → ((x : ℕ) → count x l ≤ 1) → NoRepeat l (length l)
NoRepeat-count [] once i j under within e = omega arith
NoRepeat-count (x ∷ l) once i zero under within e = omega arith
NoRepeat-count (x ∷ l) once zero (suc j) under within e =
    let again : 1 ≤ count x l = rw e (count-get_or l j (omega arith)) in
    let this : hit x x ≡ 1 = ground arith in omega (arith, once x)
NoRepeat-count (x ∷ l) once (suc i) (suc j) under within e =
    NoRepeat-count l (λ y. omega (arith, once y)) i j (omega arith) (omega arith) e
