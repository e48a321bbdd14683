-- ===== src/Examples/Buffers.antt =====
-- src/base/Buffer.cpp at a small buffer.
use protobase.Common.{
  ℕ, ◌≡◌, refl, none, some, true, false, Option, List, [], ◌∷◌, arith, ◌==◌, if◌then◌else◌,
  add_size, sub_size,
}
use protobase.Memory.{Heap}
use protobase.Buffer.{Buffer, readable_bytes, writable_bytes}
use protobase.Buffer.Space.{append}
use protobase.Buffer.Read.{peek}
use protobase.Buffer.Fd.{received, read_fd}
use protobase.Buffer.Valid.{Holds, Counted, content}
use protobase.Buffer.Append.{Appended, append-content}
use protobase.Buffer.Input.{read_fd-content}
use protobase.Buffer.Sharing.{destroy_all, destroy_all-block, append_clobbers}
use protobase.Buffer.Growth.{append_frees_views}

-- A block of 16 bytes at address 1, and its count at address 2.
abbrev pub stored : List ℕ
stored = 0 ∷ 0 ∷ 0 ∷ 0 ∷ 0 ∷ 0 ∷ 0 ∷ 0 ∷ 65 ∷ 66 ∷ 67 ∷ 68 ∷ 0 ∷ 0 ∷ 0 ∷ 0 ∷ []

abbrev pub memory : ℕ → Heap
memory n = record {
  next = 3;
  block = λ p. if p == 1 then some stored else none;
  count = λ p. if p == 2 then some n else none;
  junk = 0;
}

-- The owner, which holds "ABCD".
abbrev pub owner : Buffer
owner = record {
  buffer = 1;
  read_index = 8;
  write_index = 12;
  capacity = 16;
  ref_count = 2;
  own_memory = true;
}

-- A view of "AB".
abbrev pub front_view : Buffer
front_view = record owner { write_index = 10; own_memory = false }

-- A view of "CD".
abbrev pub back_view : Buffer
back_view = record owner { read_index = 10; own_memory = false }

pub owner-Holds : (n : ℕ) → Holds owner (memory n) stored
owner-Holds n = record {
  front = omega arith;
  order = omega arith;
  room = omega arith;
  small = omega arith;
  not_null = omega arith;
  allocated = omega arith;
  block = refl;
  size = refl;
}

front_view-Holds : (n : ℕ) → Holds front_view (memory n) stored
front_view-Holds n = record {
  front = omega arith;
  order = omega arith;
  room = omega arith;
  small = omega arith;
  not_null = omega arith;
  allocated = omega arith;
  block = refl;
  size = refl;
}

pub owner-Counted : Counted owner (memory 1) 1
owner-Counted = record {
  positive = omega arith;
  not_null = omega arith;
  allocated = omega arith;
  count = refl;
}

append_slides : Option (ℕ × ℕ × ℕ)
append_slides =
    elim (append (1 ∷ 2 ∷ 3 ∷ 4 ∷ 5 ∷ []) (record owner { read_index = 10 }) (memory 1)) [
      | none ↦ none
      | some (b, h) ↦ some (b.read_index, b.write_index, b.capacity)
    ]

append_slides_run : append_slides ≡ some (8, 15, 16)
unfolding append_slides append readable_bytes writable_bytes add_size sub_size
append_slides_run = refl

append-content_example :
    (b' : Buffer) × (h' : Heap) × (bytes' : List ℕ) × (append (69 ∷ 70 ∷ []) owner (memory 1)
      ≡ some (b', h'))
    × Appended (69 ∷ 70 ∷ []) owner stored b' h' bytes'
append-content_example = append-content (69 ∷ 70 ∷ []) 1 (owner-Holds 1) owner-Counted (omega arith)

read_fd-content_example :
    (b' : Buffer) × (h' : Heap) × (bytes' : List ℕ) × (read_fd
        (received (1 ∷ 2 ∷ 3 ∷ 4 ∷ 5 ∷ []))
        owner
        (memory 1)
      ≡ some (b', h'))
    × Appended (1 ∷ 2 ∷ 3 ∷ 4 ∷ 5 ∷ []) owner stored b' h' bytes'
read_fd-content_example =
    read_fd-content (owner-Holds 1) (1 ∷ 2 ∷ 3 ∷ 4 ∷ 5 ∷ []) 1 owner-Counted (omega arith)

destroy_all-block_example :
    (h' : Heap) × (destroy_all (front_view ∷ owner ∷ back_view ∷ []) (memory 3) ≡ some h')
    × (h'.block 1 ≡ none)
    × (h'.count 2 ≡ none)
destroy_all-block_example =
    destroy_all-block 1 2 0 (front_view ∷ owner ∷ back_view ∷ []) (memory 3) stored (omega arith)
      (omega arith) (refl, refl, (refl, refl, (refl, refl, tt))) refl refl (omega arith)

append_clobbers_example :
    (b' : Buffer) × (h' : Heap) × (bytes' : List ℕ) × (append (9 ∷ []) front_view (memory 2)
      ≡ some (b', h'))
    × Holds owner h' bytes'
    × (content owner bytes' ≡ 65 ∷ 66 ∷ 9 ∷ 68 ∷ [])
append_clobbers_example =
    append_clobbers (front_view-Holds 2) (9 ∷ []) (omega arith) owner 2 (owner-Holds 2) refl refl
      (omega arith)

append_frees_views_example :
    (b' : Buffer) × (h' : Heap) × (append (1 ∷ 2 ∷ 3 ∷ 4 ∷ 5 ∷ []) owner (memory 2) ≡ some (b', h'))
    × (h'.count ≡ (memory 2).count)
    × (peek 0 2 front_view h' ≡ none)
append_frees_views_example =
    append_frees_views (1 ∷ 2 ∷ 3 ∷ 4 ∷ 5 ∷ []) (owner-Holds 2) (omega arith) refl (omega arith)
      front_view 0 2 refl
