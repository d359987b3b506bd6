-- ===== src/ClientTable/Visits.antt =====
-- src/client_info.c, `get_next_fd`: which socket comes next.
use dhttp.Base.{
  ℕ, zero, suc, ◌+◌, ◌-◌, ◌≤◌, ◌<◌, ◌≡◌, refl, arith, inl, inr, Bool, true, false, Bool-cases,
  Option, none, some, dec_lt,
}
use dhttp.ClientTable.{Client, fd_setsize, next_from, is_ready, get_next_fd}

-- the first socket from `pos` on that is ready, or none if there is no more
abbrev pub IsNext : (ℕ → Bool) → ℕ → Option ℕ × ℕ → Type 0
IsNext ready pos (none, next) = (next ≡ 0) × ((i : ℕ) → pos ≤ i → i < fd_setsize → ready i ≡ false)
IsNext ready pos (some fd, next) =
    (next ≡ fd + 1)
    × (pos ≤ fd)
    × (fd < fd_setsize)
    × (ready fd ≡ true)
    × ((i : ℕ) → pos ≤ i → i < fd → ready i ≡ false)

-- a position that is not ready is passed over
IsNext-skip :
    (ready : ℕ → Bool) (pos : ℕ) (r : Option ℕ × ℕ)
    → ready pos ≡ false
    → IsNext ready (pos + 1) r
    → IsNext ready pos r
IsNext-skip ready pos (none, next) no_ready h = (
  h.0,
  λ i le lt. elim (dec_lt pos i) [
    | yes p ↦ h.1 i (omega arith) lt
    | no p ↦ (let e : i ≡ pos = omega arith in rw e no_ready)
  ],
)
IsNext-skip ready pos (some fd, next) no_ready h = (
  h.0,
  omega arith,
  h.2,
  h.3,
  λ i le lt. elim (dec_lt pos i) [
    | yes p ↦ h.4 i (omega arith) lt
    | no p ↦ (let e : i ≡ pos = omega arith in rw e no_ready)
  ],
)

next_from-IsNext :
    (ready : ℕ → Bool) (rounds pos : ℕ)
    → pos + rounds ≡ fd_setsize
    → IsNext ready pos (next_from ready rounds pos)
unfolding next_from
next_from-IsNext ready zero pos h = (refl, λ i le lt. absurd (omega arith))
next_from-IsNext ready (suc rounds) pos h = elim (Bool-cases (ready pos)) [
  | inl e ↦ rw e (refl, omega arith, omega arith, e, λ i le lt. absurd (omega arith))
  | inr e ↦ rw e (
      IsNext-skip ready pos (next_from ready rounds (pos + 1)) e
        (next_from-IsNext ready rounds (pos + 1) (omega arith)))
]

-- From a position up to FD_SETSIZE, `get_next_fd` gives the first socket that exists and is in the
-- set, with the position behind it, or -1 with position 0 exactly if there is none.
pub get_next_fd-IsNext :
    (clnt_set : ℕ → Client) (fdset : ℕ → Bool) (pos : ℕ)
    → pos ≤ fd_setsize
    → IsNext (is_ready clnt_set fdset) pos (get_next_fd clnt_set fdset pos)
unfolding get_next_fd
get_next_fd-IsNext clnt_set fdset pos h =
    next_from-IsNext (is_ready clnt_set fdset) (fd_setsize - pos) pos (omega arith)
