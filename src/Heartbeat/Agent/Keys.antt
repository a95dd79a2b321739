-- ===== src/Heartbeat/Agent/Keys.antt =====
-- The map of the running loops: `contains_key` and `remove` by project id, and the tokens in it.
use datum_connect.Base.{
  ℕ, ◌+◌, ◌≤◌, ◌<◌, ◌≡◌, refl, ◌≢◌, Bool, true, false, not, ◌&&◌, ◌||◌, some, List, [], ◌∷◌, ◌++◌,
  map, arith, ◌==◌, option_eq, nat_eq, text_eq, any,
}
use datum_connect.Text.{Text}
use datum_connect.Heartbeat.Agent.{contains_key, remove_key}

abbrev pub has : ℕ → List ℕ → Bool
has t ts = any (λ x. x == t) ts

abbrev pub has_token : ℕ → List (Text × ℕ) → Bool
has_token t m = any (λ e. e.1 == t) m

-- No project is registered twice.
abbrev pub UniqueKeys : List (Text × ℕ) → Type 0
UniqueKeys [] = Unit
UniqueKeys ((k, t) ∷ m) = (contains_key k m ≡ false) × UniqueKeys m

-- No two projects share a token, and all tokens were made.
abbrev pub OwnTokens : ℕ → List (Text × ℕ) → Type 0
OwnTokens n [] = Unit
OwnTokens n ((k, t) ∷ m) = (t < n) × (has_token t m ≡ false) × OwnTokens n m

pub OwnTokens-suc : (n : ℕ) (m : List (Text × ℕ)) → OwnTokens n m → OwnTokens (n + 1) m
OwnTokens-suc n [] h = tt
OwnTokens-suc n ((k, t) ∷ m) h = (omega arith, h.1, OwnTokens-suc n m h.2)

pub has_token_of_le :
    (t n : ℕ) (m : List (Text × ℕ)) → OwnTokens n m → n ≤ t → has_token t m ≡ false
has_token_of_le t n [] h l = refl
has_token_of_le t n ((k, t') ∷ m) h l = ground (arith, has_token_of_le t n m h.2)

-- The entries that `remove_key` leaves.
pub contains_key-remove_key_of_ne :
    (k j : Text) (m : List (Text × ℕ))
    → j ≢ k
    → contains_key j (remove_key k m).0 ≡ contains_key j m
unfolding remove_key
contains_key-remove_key_of_ne k j [] h = refl
contains_key-remove_key_of_ne k j ((i, t) ∷ m) h =
    ground (arith, contains_key-remove_key_of_ne k j m h)

pub contains_key-remove_key_self :
    (k : Text) (m : List (Text × ℕ)) → UniqueKeys m → contains_key k (remove_key k m).0 ≡ false
unfolding remove_key
contains_key-remove_key_self k [] u = refl
contains_key-remove_key_self k ((i, t) ∷ m) u = ground (arith, contains_key-remove_key_self k m u.1)

pub remove_key-UniqueKeys :
    (k : Text) (m : List (Text × ℕ)) → UniqueKeys m → UniqueKeys (remove_key k m).0
unfolding remove_key
remove_key-UniqueKeys k [] u = tt
remove_key-UniqueKeys k ((i, t) ∷ m) u =
    ground (arith, remove_key-UniqueKeys k m u.1, contains_key-remove_key_of_ne k i m)

has_token-remove_key_le :
    (k : Text) (t : ℕ) (m : List (Text × ℕ))
    → has_token t m ≡ false
    → has_token t (remove_key k m).0 ≡ false
unfolding remove_key
has_token-remove_key_le k t [] h = refl
has_token-remove_key_le k t ((i, t') ∷ m) h = ground (arith, has_token-remove_key_le k t m)

pub remove_key-OwnTokens :
    (k : Text) (n : ℕ) (m : List (Text × ℕ)) → OwnTokens n m → OwnTokens n (remove_key k m).0
unfolding remove_key
remove_key-OwnTokens k n [] h = tt
remove_key-OwnTokens k n ((i, t) ∷ m) h =
    ground (arith, remove_key-OwnTokens k n m h.2, has_token-remove_key_le k t m)

-- The token that is given back was there, and is gone.
remove_key-token :
    (k : Text) (n token : ℕ) (m : List (Text × ℕ))
    → OwnTokens n m
    → (remove_key k m).1 ≡ some token
    → (token < n) × (has_token token m ≡ true) × (has_token token (remove_key k m).0 ≡ false)
unfolding remove_key
remove_key-token k n token [] h e = cc
remove_key-token k n token ((i, t') ∷ m) h e = ground (arith, remove_key-token k n token m h.2)

-- It is the only one that goes.
pub has_token-remove_key :
    (k : Text) (n token t : ℕ) (m : List (Text × ℕ))
    → OwnTokens n m
    → (remove_key k m).1 ≡ some token
    → (token < n) × (has_token t (remove_key k m).0 ≡ (has_token t m && not (token == t)))
unfolding remove_key
has_token-remove_key k n token t [] h e = cc
has_token-remove_key k n token t ((i, t') ∷ m) h e =
    ground (arith, has_token-remove_key k n token t m h.2, remove_key-token k n token m h.2)

pub has-append :
    (t : ℕ) (m : List (Text × ℕ)) (ts : List ℕ)
    → has t (map (λ e. e.1) m ++ ts) ≡ (has_token t m || has t ts)
has-append t [] ts = refl
has-append t ((k, t') ∷ m) ts = ground (arith, has-append t m ts)
