-- ===== src/State/Table.antt =====
-- The list of proxies as a table by resource id.
use datum_connect.Base.{
  ◌≡◌, refl, ◌≢◌, none, some, List, [], ◌∷◌, ◌++◌, map, arith, if◌then◌else◌, ◌==◌, option_eq,
  nat_eq, text_eq,
}
use datum_connect.Text.{Text}
use datum_connect.State.{
  ProxyState, State, id, set_entry, set_proxy, take_entry, remove_proxy, find_id, proxy_by_id,
}

-- No two entries have one id.
abbrev pub UniqueIds : List ProxyState → Type 0
UniqueIds [] = Unit
UniqueIds (q ∷ qs) = (find_id (id q) qs ≡ none) × UniqueIds qs

pub find_id-set_entry :
    (i : Text) (p : ProxyState) (qs : List ProxyState)
    → find_id i (set_entry p qs) ≡ (if id p == i then some p else find_id i qs)
unfolding find_id set_entry
find_id-set_entry i p [] = refl
find_id-set_entry i p (q ∷ qs) = ground (arith, find_id-set_entry i p qs)

-- A stored proxy is found under its id, and every other id keeps its proxy.
pub proxy_by_id-set_proxy :
    (s : State) (p : ProxyState) (i : Text)
    → proxy_by_id (set_proxy s p) i ≡ (if id p == i then some p else proxy_by_id s i)
unfolding set_proxy
proxy_by_id-set_proxy s p i = find_id-set_entry i p s.proxies

find_id-take_entry_of_ne :
    (i j : Text) (qs : List ProxyState) → j ≢ i → find_id j (take_entry i qs).0 ≡ find_id j qs
unfolding find_id take_entry
find_id-take_entry_of_ne i j [] h = refl
find_id-take_entry_of_ne i j (q ∷ qs) h = ground (arith, find_id-take_entry_of_ne i j qs h)

find_id-take_entry_self :
    (i : Text) (qs : List ProxyState) → UniqueIds qs → find_id i (take_entry i qs).0 ≡ none
unfolding find_id take_entry
find_id-take_entry_self i [] u = refl
find_id-take_entry_self i (q ∷ qs) u = ground (arith, find_id-take_entry_self i qs u.1)

take_entry-find_id : (i : Text) (qs : List ProxyState) → (take_entry i qs).1 ≡ find_id i qs
unfolding find_id take_entry
take_entry-find_id i [] = refl
take_entry-find_id i (q ∷ qs) = ground (arith, take_entry-find_id i qs)

set_entry-UniqueIds :
    (p : ProxyState) (qs : List ProxyState) → UniqueIds qs → UniqueIds (set_entry p qs)
unfolding set_entry find_id
set_entry-UniqueIds p [] u = (refl, tt)
set_entry-UniqueIds p (q ∷ qs) u =
    ground (arith, set_entry-UniqueIds p qs u.1, find_id-set_entry (id q) p qs)

take_entry-UniqueIds :
    (i : Text) (qs : List ProxyState) → UniqueIds qs → UniqueIds (take_entry i qs).0
unfolding take_entry
take_entry-UniqueIds i [] u = tt
take_entry-UniqueIds i (q ∷ qs) u =
    ground (arith, take_entry-UniqueIds i qs u.1, find_id-take_entry_of_ne i (id q) qs)

-- Storing and removing keep the ids unique.
pub set_proxy-UniqueIds :
    (s : State) (p : ProxyState) → UniqueIds s.proxies → UniqueIds (set_proxy s p).proxies
unfolding set_proxy
set_proxy-UniqueIds s p u = set_entry-UniqueIds p s.proxies u

pub remove_proxy-UniqueIds :
    (s : State) (i : Text) → UniqueIds s.proxies → UniqueIds (remove_proxy s i).0.proxies
unfolding remove_proxy
remove_proxy-UniqueIds s i u = take_entry-UniqueIds i s.proxies u

-- Removal returns what was stored under the id, and takes away that and nothing else.
pub remove_proxy_lem :
    (s : State) (i j : Text)
    → UniqueIds s.proxies
    → ((remove_proxy s i).1 ≡ proxy_by_id s i)
      × (proxy_by_id (remove_proxy s i).0 j ≡ (if i == j then none else proxy_by_id s j))
unfolding remove_proxy
remove_proxy_lem s i j u = (
  take_entry-find_id i s.proxies,
  ground (arith, find_id-take_entry_self i s.proxies u, find_id-take_entry_of_ne i j s.proxies),
)

-- The ids in order: a proxy with a known id keeps its place, and a new one goes to the end.
pub ids-set_entry :
    (p : ProxyState) (qs : List ProxyState)
    → map id (set_entry p qs)
      ≡ elim (find_id (id p) qs) [ none ↦ map id qs ++ id p ∷ [] | some _ ↦ map id qs ]
unfolding set_entry find_id
ids-set_entry p [] = refl
ids-set_entry p (q ∷ qs) = ground (arith, ids-set_entry p qs)
