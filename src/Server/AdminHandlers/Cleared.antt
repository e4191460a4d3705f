-- ===== src/Server/AdminHandlers/Cleared.antt =====
-- What `ClearCache` of internal/server/handlers/admin.go leaves in Redis.
use mailclear.Base.{
  ℕ, ◌+◌, ◌≡◌, refl, ap, sym, ◌∙◌, subst, inl, inr, Bool, true, List, [], ◌∷◌, ◌++◌, length,
  length-append, leb, ltb, if◌then◌else◌, Bool-cases, arith,
}
use mailclear.Text.{Text, member}
use mailclear.Text.Equality.{member-append}
use mailclear.Server.AdminHandlers.{del, Clearing, del_keys, scan_keys, clear_redis}

del-nil : (store : List Text) → del true [] store ≡ store
unfolding del member
del-nil [] = refl
del-nil (k ∷ store) = ap (λ l. k ∷ l) (del-nil store)

-- one DEL of all the keys does what two of them do
del-append : (ks ls store : List Text) → del true (ks ++ ls) store ≡ del true ls (del true ks store)
unfolding del
del-append ks ls [] = refl
del-append ks ls (k ∷ store) =
    let ih = del-append ks ls store in
    let both = member-append k ks ls in
    elim (Bool-cases (member k ks)) [ inl hit ↦ ground arith | inr miss ↦ ground arith ]

-- the store once the keys that wait are deleted
abbrev settled : Clearing → List Text
settled c = del true c.keys c.store

settled-del_keys :
    (del_ok : ℕ → Bool) (c : Clearing)
    → del_ok c.dels ≡ true
    → settled (del_keys del_ok c) ≡ settled c
unfolding del_keys
settled-del_keys del_ok c ok =
    del-nil (del (del_ok c.dels) c.keys c.store) ∙ ap (λ b. del b c.keys c.store) ok

-- the keys counted so far or waiting
abbrev counted : Clearing → ℕ
counted c = c.deleted + length c.keys

counted-del_keys : (del_ok : ℕ → Bool) (c : Clearing) → counted (del_keys del_ok c) ≡ counted c
unfolding del_keys
counted-del_keys del_ok c = omega arith

-- `c` with a key more, deleted at once where a thousand keys wait
abbrev with_key : (ℕ → Bool) → Text → Clearing → Clearing
with_key del_ok k c =
    let c' = record c { keys = c.keys ++ (k ∷ []) } in
    if leb 1000 (length c'.keys) then del_keys del_ok c' else c'

counted-with_key :
    (del_ok : ℕ → Bool) (k : Text) (c : Clearing) → counted (with_key del_ok k c) ≡ counted c + 1
counted-with_key del_ok k c =
    let c' = record c { keys = c.keys ++ (k ∷ []) } in
    let grown = length-append c.keys (k ∷ []) in
    let same = counted-del_keys del_ok c' in
    elim (Bool-cases (leb 1000 (length c'.keys))) [
      | inl full ↦ ground arith
      | inr free ↦ ground arith
    ]

settled-with_key :
    (del_ok : ℕ → Bool) (k : Text) (c : Clearing)
    → ((n : ℕ) → del_ok n ≡ true)
    → settled (with_key del_ok k c) ≡ del true (k ∷ []) (settled c)
settled-with_key del_ok k c ok =
    let c' = record c { keys = c.keys ++ (k ∷ []) } in
    let one = del-append c.keys (k ∷ []) c.store in
    let same = settled-del_keys del_ok c' (ok c.dels) in
    elim (Bool-cases (leb 1000 (length c'.keys))) [
      | inl full ↦
          subst
            (λ b. settled (if b then del_keys del_ok c' else c') ≡ del true (k ∷ []) (settled c))
            (sym full) (same ∙ one)
      | inr free ↦
          subst
            (λ b. settled (if b then del_keys del_ok c' else c') ≡ del true (k ∷ []) (settled c))
            (sym free) one
    ]

scan_keys-counted :
    (del_ok : ℕ → Bool) (scanned : List Text) (c : Clearing)
    → counted (scan_keys del_ok scanned c) ≡ counted c + length scanned
unfolding scan_keys
scan_keys-counted del_ok [] c = omega arith
scan_keys-counted del_ok (k ∷ scanned) c =
    omega
      (arith, scan_keys-counted del_ok scanned (with_key del_ok k c), counted-with_key del_ok k c)

scan_keys-settled :
    (del_ok : ℕ → Bool) (scanned : List Text) (c : Clearing)
    → ((n : ℕ) → del_ok n ≡ true)
    → settled (scan_keys del_ok scanned c) ≡ del true scanned (settled c)
unfolding scan_keys
scan_keys-settled del_ok [] c ok = sym (del-nil (settled c))
scan_keys-settled del_ok (k ∷ scanned) c ok =
    scan_keys-settled del_ok scanned (with_key del_ok k c) ok
    ∙ ap (del true scanned) (settled-with_key del_ok k c ok)
    ∙ sym (del-append (k ∷ []) scanned (settled c))

-- the loop leaves nothing to wait
last_del :
    (del_ok : ℕ → Bool) (c : Clearing)
    → let c' = if ltb 0 (length c.keys) then del_keys del_ok c else c in
      (c'.deleted ≡ counted c) × (del_ok c.dels ≡ true → c'.store ≡ settled c)
unfolding del_keys
last_del del_ok c = go c.keys refl
  where
    go :
        (l : List Text)
        → c.keys ≡ l
        → let c' = if ltb 0 (length c.keys) then del_keys del_ok c else c in
          (c'.deleted ≡ counted c) × (del_ok c.dels ≡ true → c'.store ≡ settled c)
    go [] e =
        let none_wait = ap length e in
        let stay : (if ltb 0 (length c.keys) then del_keys del_ok c else c) ≡ c = ground arith in
        (
          ap (λ d. d.deleted) stay ∙ omega arith,
          λ ok. ap (λ d. d.store) stay ∙ sym (ap (λ l. del true l c.store) e ∙ del-nil c.store),
        )
    go (k ∷ ks) e =
        let some_wait = ap length e in
        let flush : (if ltb 0 (length c.keys) then del_keys del_ok c else c) ≡ del_keys del_ok c =
          ground arith in
        (
          ap (λ d. d.deleted) flush,
          λ ok. ap (λ d. d.store) flush ∙ ap (λ b. del b c.keys c.store) ok,
        )

-- `ClearCache` reports as many keys as the scan gave, also where every DEL failed.
pub clear_redis-counted :
    (del_ok : ℕ → Bool) (scanned store : List Text)
    → (clear_redis del_ok scanned store).deleted ≡ length scanned
unfolding clear_redis
clear_redis-counted del_ok scanned store =
    let c0 : Clearing = record { keys = []; dels = 0; deleted = 0; store = store } in
    (last_del del_ok (scan_keys del_ok scanned c0)).0
    ∙ scan_keys-counted del_ok scanned c0
    ∙ omega arith

-- Where every DEL succeeds, `ClearCache`, which deletes a thousand keys at a time, leaves what a single
-- DEL of all the scanned keys leaves, and reports their number.
pub clear_redis-del :
    (del_ok : ℕ → Bool) (scanned store : List Text)
    → ((n : ℕ) → del_ok n ≡ true)
    → ((clear_redis del_ok scanned store).store ≡ del true scanned store)
      × ((clear_redis del_ok scanned store).deleted ≡ length scanned)
unfolding clear_redis
clear_redis-del del_ok scanned store ok =
    let c0 : Clearing = record { keys = []; dels = 0; deleted = 0; store = store } in
    let c = scan_keys del_ok scanned c0 in
    (
      (last_del del_ok c).1 (ok c.dels)
          ∙ scan_keys-settled del_ok scanned c0 ok
          ∙ ap (del true scanned) (del-nil store),
      clear_redis-counted del_ok scanned store,
    )
