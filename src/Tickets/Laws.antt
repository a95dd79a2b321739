-- ===== src/Tickets/Laws.antt =====
-- The server's list is a map from keys to tickets.
use datum_connect.Base.{
  ◌≡◌, refl, true, false, ◌&&◌, none, some, [], ◌∷◌, arith, if◌then◌else◌, ◌==◌, option_eq, nat_eq,
  text_eq, All,
}
use datum_connect.Text.{Text}
use datum_connect.Tickets.{TicketData, Tickets, key_lt, has_key, insert, get, remove}
use datum_connect.Tickets.Order.{lt_text_irrefl, lt_text_trans, lt_text_total}

-- The first entry's key is below the second's.
abbrev pub Below : TicketData → TicketData → Type 0
Below a b = key_lt a.ticket_kind a.name b ≡ true

-- Every entry's key is below those of the entries behind it.
abbrev pub IsSorted : Tickets → Type 0
IsSorted [] = Unit
IsSorted (x ∷ xs) = All (Below x) xs × IsSorted xs

Below-trans : (a b c : TicketData) → Below a b → Below b c → Below a c
Below-trans a b c h k = ground (
  arith,
  lt_text_trans a.ticket_kind b.ticket_kind c.ticket_kind,
  lt_text_trans a.name b.name c.name,
)

Below-irrefl : (a : TicketData) (k n : Text) → has_key k n a ≡ true → key_lt k n a ≡ false
Below-irrefl a k n h = ground (arith, lt_text_irrefl k, lt_text_irrefl n)

All-Below : (a b : TicketData) (xs : Tickets) → Below a b → All (Below b) xs → All (Below a) xs
All-Below a b [] h k = tt
All-Below a b (x ∷ xs) h (k, ks) = (Below-trans a b x h k, All-Below a b xs h ks)

-- The same key is below the same entries.
All-same :
    (e x : TicketData) (xs : Tickets)
    → has_key e.ticket_kind e.name x ≡ true
    → All (Below x) xs
    → All (Below e) xs
All-same e x [] h k = tt
All-same e x (y ∷ xs) h (k, ks) = (ground arith, All-same e x xs h ks)

Below-total :
    (e x : TicketData)
    → has_key e.ticket_kind e.name x ≡ false
    → key_lt e.ticket_kind e.name x ≡ false
    → Below x e
Below-total e x h k =
    ground (arith, lt_text_total e.ticket_kind x.ticket_kind, lt_text_total e.name x.name)

All-insert :
    (b e : TicketData) (xs : Tickets) → Below b e → All (Below b) xs → All (Below b) (insert e xs)
unfolding insert
All-insert b e [] h k = (h, tt)
All-insert b e (x ∷ xs) h (k, ks) = ground (arith, All-insert b e xs h ks)

pub insert-IsSorted : (e : TicketData) (xs : Tickets) → IsSorted xs → IsSorted (insert e xs)
unfolding insert
insert-IsSorted e [] s = (tt, tt)
insert-IsSorted e (x ∷ xs) (b, s) = ground (
  arith,
  insert-IsSorted e xs s,
  Below-total e x,
  All-insert x e xs,
  All-same e x xs,
  All-Below e x xs,
)

All-remove :
    (b : TicketData) (k n : Text) (xs : Tickets) → All (Below b) xs → All (Below b) (remove k n xs)
unfolding remove
All-remove b k n [] h = tt
All-remove b k n (x ∷ xs) (h, hs) = ground (arith, All-remove b k n xs hs)

pub remove-IsSorted : (k n : Text) (xs : Tickets) → IsSorted xs → IsSorted (remove k n xs)
unfolding remove
remove-IsSorted k n [] s = tt
remove-IsSorted k n (x ∷ xs) (b, s) =
    ground (arith, remove-IsSorted k n xs s, All-remove x k n xs b)

pub get-insert :
    (e : TicketData) (k n : Text) (xs : Tickets)
    → get k n (insert e xs) ≡ (if has_key k n e then some e else get k n xs)
unfolding insert get
get-insert e k n [] = ground arith
get-insert e k n (x ∷ xs) = ground (arith, get-insert e k n xs)

-- Entries above a key do not have it.
get-above :
    (k n : Text) (x : TicketData) (xs : Tickets)
    → has_key k n x ≡ true
    → All (Below x) xs
    → get k n xs ≡ none
unfolding get
get-above k n x [] h b = refl
get-above k n x (y ∷ xs) h (b, bs) =
    ground (arith, get-above k n x xs h bs, Below-irrefl y x.ticket_kind x.name)

pub get-remove :
    (i m k n : Text) (xs : Tickets)
    → IsSorted xs
    → get k n (remove i m xs) ≡ (if k == i && n == m then none else get k n xs)
unfolding remove get
get-remove i m k n [] s = ground arith
get-remove i m k n (x ∷ xs) (b, s) = ground (arith, get-remove i m k n xs s, get-above k n x xs)

-- Each entry is found under its key.
All-found :
    (x : TicketData) (xs ys : Tickets)
    → All (Below x) ys
    → All (λ e. get e.ticket_kind e.name xs ≡ some e) ys
    → All (λ e. get e.ticket_kind e.name (x ∷ xs) ≡ some e) ys
unfolding get
All-found x xs [] b h = tt
All-found x xs (y ∷ ys) (b, bs) (h, hs) =
    (ground (arith, Below-irrefl x y.ticket_kind y.name), All-found x xs ys bs hs)

pub get-entries : (xs : Tickets) → IsSorted xs → All (λ e. get e.ticket_kind e.name xs ≡ some e) xs
unfolding get
get-entries [] s = tt
get-entries (x ∷ xs) (b, s) = (ground arith, All-found x xs xs b (get-entries xs s))
