-- ===== src/Importer/Batcher.antt =====
-- internal/importer/batcher.go. `out` lists the batches handed to `flush`; `answer n` is what its n-th
-- call returns, the first being call 0.
pub mod Batches
use mailclear.Base.{
  ℕ, Bool, List, [], ◌∷◌, ◌++◌, Option, none, some, length, leb, ◌==◌, if◌then◌else◌,
}
use mailclear.Text.{Text}

pub record Batcher : Type 0 where
  pub size : ℕ
  pub buf : List Text
  pub out : List (List Text)

-- `NewBatcher`
unfoldable pub new_batcher : ℕ → Batcher
new_batcher size = record { size = if size == 0 then 1000 else size; buf = []; out = [] }

module _ (answer : ℕ → Option Text) where
  unfoldable pub flush : Batcher → Batcher × Option Text
  flush b = elim b.buf [
    | [] ↦ (b, none)
    | x ∷ xs ↦ (record b { buf = []; out = b.out ++ ((x ∷ xs) ∷ []) }, answer (length b.out))
  ]

  unfoldable pub add : Text → Batcher → Batcher × Option Text
  unfolding flush
  add email b =
      let b' = record b { buf = b.buf ++ (email ∷ []) } in
      if leb b.size (length b'.buf) then flush b' else (b', none)

  unfoldable pub close : Batcher → Batcher × Option Text
  unfolding flush
  close b = flush b
