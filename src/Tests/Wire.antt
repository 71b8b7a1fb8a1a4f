-- ===== src/Tests/Wire.antt =====
-- Tests of the wire format, over a codec of two messages, and of the desk layout.
use silicon_office.Prelude.{
  ℕ, String, ◌≡◌, refl, List, [], ◌∷◌, arith, str_dec, contains, if◌then◌else◌, eqb, keep, is_some,
}
use silicon_office.Prelude.Dict.{lookup, insert, erase, keys}
use silicon_office.Ipc.{
  Loaded, newline, value, malformed, is_blank, rstrip_newlines, encode_message, decode_message,
  feed, split_line, drain, emit,
}
use silicon_office.Ipc.Scan.{has_newline}
use silicon_office.Ipc.Fuel.{IsDrained, drain_ends}
use silicon_office.Ipc.Stream.{IsFaithful, stream}
use silicon_office.NetClient.{Recv, timeout, received, read_loop, queue_fed}
use silicon_office.NetClient.Delivery.{bytes, read_loop-feed, read_loop-stream}
use silicon_office.Layout.{
  Layout, init, sync, place, assign_slot, release_slot, release_all, assign_all, recompute_grid,
}
use silicon_office.Layout.Slots.{IsValid, count, held}
use silicon_office.Layout.Sync.{IsSetOrder, sync-IsValid, sync_sessions}
use silicon_office.Layout.Growth.{sync_capacity}

program : Unit {0}
unfolding is_blank rstrip_newlines encode_message decode_message feed split_line drain emit
    has_newline stream read_loop queue_fed bytes lookup insert erase keys str_dec keep sync place
    assign_slot release_slot release_all assign_all recompute_grid count held
program = tt

-- Two messages, `1` and `[]`.
data Doc : Type 0 where
  one empty : Doc

abbrev dumps : Doc → List ℕ
dumps one = b'1' ∷ []
dumps empty = b'[' ∷ b']' ∷ []

abbrev loads : List ℕ → Loaded Doc
loads (b ∷ []) = if eqb b b'1' then value one else malformed
loads (b ∷ c ∷ []) =
    if eqb b b'[' then (if eqb c b']' then value empty else malformed) else malformed
loads _ = malformed

dumps-IsFaithful : (d : Doc) → IsFaithful dumps loads d
unfolding program
dumps-IsFaithful one = record { one_line = refl; visible = refl; loaded = refl }
dumps-IsFaithful empty = record { one_line = refl; visible = refl; loaded = refl }

-- "1\n[]\n[" in pieces that cut the second message.
abbrev pieces : List Recv
pieces =
    received (b'1' ∷ [])
    ∷ timeout
    ∷ received (10 ∷ b'[' ∷ [])
    ∷ received (b']' ∷ 10 ∷ b'[' ∷ [])
    ∷ received []
    ∷ []

read_loop-feed_example : (read_loop loads [] pieces).0 ≡ one ∷ empty ∷ []
unfolding program
read_loop-feed_example = read_loop-feed loads pieces (one ∷ empty ∷ []) refl

read_loop-stream_example : (read_loop loads [] pieces).0 ≡ one ∷ empty ∷ []
unfolding program
read_loop-stream_example =
    read_loop-stream dumps loads pieces (one ∷ empty ∷ []) (b'[' ∷ [])
      (dumps-IsFaithful one, (dumps-IsFaithful empty, tt)) refl refl

drain_ends_example :
    (drain loads 9 (b'1' ∷ newline ∷ b'[' ∷ []) ≡ feed loads [] (b'1' ∷ newline ∷ b'[' ∷ []))
    × IsDrained (feed loads [] (b'1' ∷ newline ∷ b'[' ∷ []))
drain_ends_example = drain_ends loads 9 (b'1' ∷ newline ∷ b'[' ∷ []) (omega arith)

abbrev as_is : List String → List String
as_is xs = xs

as_is-IsSetOrder : IsSetOrder as_is
as_is-IsSetOrder = record { members = λ xs a. refl; once = λ xs d. d }

-- "a" and "b" came, then "a" left and its slot 0 is free.
abbrev pub office : Layout
office = record { slot_of_session = ("b", 1) ∷ []; free_slots = 0 ∷ []; next_slot = 2; rows = 2 }

office_run : sync as_is (sync as_is init ("a" ∷ "b" ∷ [])) ("b" ∷ []) ≡ office
unfolding program
office_run = refl

init-IsValid : IsValid init
unfolding program
init-IsValid = record { once = λ i. ground arith; size = refl; distinct = tt }

office-IsValid : IsValid office
unfolding program
office-IsValid = record { once = λ i. ground arith; size = refl; distinct = (refl, tt) }

sync-IsValid_example : IsValid (sync as_is office ("c" ∷ "b" ∷ "d" ∷ []))
sync-IsValid_example =
    sync-IsValid as_is as_is-IsSetOrder office ("c" ∷ "b" ∷ "d" ∷ []) office-IsValid

sync_sessions_example :
    is_some (lookup "c" (sync as_is office ("c" ∷ "b" ∷ [])).slot_of_session)
    ≡ contains ("c" ∷ "b" ∷ []) "c"
sync_sessions_example = sync_sessions as_is as_is-IsSetOrder office ("c" ∷ "b" ∷ []) "c"

sync_capacity_example :
    ((sync as_is office ("c" ∷ "b" ∷ "d" ∷ [])).next_slot ≡ 3)
    × ((sync as_is office ("c" ∷ "b" ∷ "d" ∷ [])).rows ≡ 3)
unfolding program
sync_capacity_example =
    sync_capacity as_is office ("c" ∷ "b" ∷ "d" ∷ []) as_is-IsSetOrder office-IsValid
      (refl, (refl, (refl, tt)))
