-- ===== src/Lsa/Updates.antt =====
-- src/lsa.c: what the updates of the table of announcements leave for a lookup.
use dhttp.Base.{ℕ, ◌≡◌, some, if◌then◌else◌}
use dhttp.Ht.Keys.{cmp_int}
use dhttp.Ht.Laws.{IsValid}
use dhttp.Ht.{Ht, ht_find}
use dhttp.Lsa.{Lsa, lsa_ht}

-- After the update a lookup of the sender gives the new announcement, and one of another node what
-- it gave before.
abbrev pub IsStored : Ht Lsa → Lsa → Ht Lsa → Type 0
IsStored t l t' =
    IsValid lsa_ht t'
    × ((j : ℕ)
        → ht_find lsa_ht j t' ≡ (if cmp_int l.head.snder_id j then some l else ht_find lsa_ht j t))
