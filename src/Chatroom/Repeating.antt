-- ===== src/Chatroom/Repeating.antt =====
-- The messages that study-linux-kernel/socket/chatroom_server.c sends over its table.
use mathlib.Core.Path.{fun_ext}
use study_linux_kernel.Base.{
  ℕ, zero, suc, ◌<◌, ◌≡◌, refl, List, [], ◌∷◌, Option, none, some, true, length, take, arith,
}
use study_linux_kernel.Base.Run.{Run, ok, fault}
use study_linux_kernel.Sys.Calls.{Text, Address}
use study_linux_kernel.Sys.Monad.{World, M, pure, ◌>>◌}
use study_linux_kernel.HashTable.Hash.{hash_size, max_key_len}
use study_linux_kernel.HashTable.Table.{Table, Node, Chain}
use study_linux_kernel.HashTable.Iterator.{
  Context, hash_table_begin, hash_table_end, hash_table_next, hash_table_current_value, advance,
}
use study_linux_kernel.HashTable.Traversal.{
  Entry, traverse, onward, visit, entries, traverse_from_begin,
}
use study_linux_kernel.Chatroom.{repeat_to, repeat_all}

visit-cases :
    (x : Entry) (r : Option (Run (List Entry))) (es : List Entry)
    → visit (ok x) r ≡ some (ok es)
    → (xs : List Entry) × (r ≡ some (ok xs)) × (es ≡ x ∷ xs)
unfolding visit
visit-cases x none es h = absurd (cc)
visit-cases x (some (fault e)) es h = absurd (ground arith)
visit-cases x (some (ok xs)) es h = (xs, refl, ground arith)

-- Inside a chain the cursor moves on.
next_inside :
    (t : Table) (index : Option ℕ) (node : Node) (rest : Chain)
    → (c : Context) × (hash_table_next t (record { bucket_index = index; current = node ∷ rest })
        ≡ ok c)
unfolding hash_table_next advance
next_inside t index node [] = (_, refl)
next_inside t index node (n ∷ rest) = (_, refl)

module _ (inet_ntoa : Address → Text) (port_text : Address → Text)
    (address : Text → Text → Address) where
  -- The message to each entry in turn.
  unfoldable pub send_all : Text → List Entry → M (Unit {0})
  send_all message [] = pure tt
  send_all message (x ∷ xs) = repeat_to inet_ntoa port_text address message x >> send_all message xs

  repeat_all-traverse :
      (t : Table) (message : Text) (fuel : ℕ) (index : Option ℕ) (chain : Chain) (es : List Entry)
      (w : World)
      → traverse fuel t (record { bucket_index = index; current = chain }) ≡ some (ok es)
      → repeat_all inet_ntoa port_text address fuel t message
          (record { bucket_index = index; current = chain })
          w
        ≡ send_all message es w
  unfolding traverse onward repeat_all hash_table_end hash_table_current_value send_all
  repeat_all-traverse t message zero index chain es w h = absurd (ground arith)
  repeat_all-traverse t message (suc fuel) index [] es w h =
      let e : es ≡ [] = ground arith in rw e refl
  repeat_all-traverse t message (suc fuel) index (node ∷ rest) es w h =
      let (c', step) = next_inside t index node rest in
      let h' : visit (ok (take max_key_len node.key, node.value)) (traverse fuel t c')
          ≡ some (ok es) =
        rw step at h in
      let (xs, later, split) =
        visit-cases (take max_key_len node.key, node.value) (traverse fuel t c') es h' in
      rw (step, split)
        (rw
          (fun_ext (λ v. repeat_all-traverse t message fuel c'.bucket_index c'.current xs v later))
          refl)

  -- Over a table of 1024 buckets, with fuel above the number of its entries, the loop over the cursor
  -- sends the message once to each entry of the table, in the order of the buckets, and stops only
  -- where a sending stops.
  pub repeat_all-entries :
      (t : Table) (message : Text) (fuel : ℕ)
      → length t.buckets ≡ hash_size
      → length (entries t.buckets) < fuel
      → (c : Context) × (hash_table_begin true t ≡ ok c)
        × ((w : World)
            → repeat_all inet_ntoa port_text address fuel t message c w
              ≡ send_all message (entries t.buckets) w)
  repeat_all-entries t message fuel width f =
      let (c, start, all) = traverse_from_begin t fuel width f in
      (c, start, λ w. repeat_all-traverse t message fuel c.bucket_index c.current _ w all)
