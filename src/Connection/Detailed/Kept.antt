-- ===== src/Connection/Detailed/Kept.antt =====
-- src/base/Buffer.cpp as src/net/Connection.cpp uses it: a buffer by the bytes that it keeps.
use protobase.Common.{
  ℕ, ◌+◌, ◌*◌, ◌<◌, ◌≡◌, ◌∙◌, refl, sym, ap, some, List, [], ◌∷◌, ◌++◌, ◌==◌, ltb, arith, length,
  drop, drop_all, size_max, if_both,
}
use protobase.Memory.{Heap}
use protobase.Buffer.{Buffer, readable_bytes, skip}
use protobase.Buffer.Space.{append}
use protobase.Buffer.Fd.{received, read_fd, offered}
use protobase.Buffer.Valid.{Holds, Live, keep_Live, content, readable-eq, length-content}
use protobase.Buffer.Append.{append-content}
use protobase.Buffer.Input.{read_fd-content}
use protobase.Buffer.Consume.{skip-content}
use protobase.Buffer.Access.{load-content}
use protobase.Connection.{nothing_in}
use protobase.Connection.Handlers.{skipped}

-- A buffer that meets its invariant, with a live count, and the bytes that it keeps.
pub record Keeps (xs : List ℕ) (b : Buffer) (h : Heap) : Type 0 where
  pub bytes : List ℕ
  pub holds : Holds b h bytes
  pub live : Live b h
  pub same : content b bytes ≡ xs

module _ {xs : List ℕ} {b : Buffer} {h : Heap} (k : Keeps xs b h) where
  pub readable-Keeps : readable_bytes b ≡ length xs
  readable-Keeps = readable-eq k.holds ∙ sym (length-content k.holds) ∙ ap length k.same

  nothing-length : (ys : List ℕ) → (length ys == 0) ≡ nothing_in ys
  nothing-length [] = refl
  nothing-length (y ∷ ys) = ground arith

  pub empty-Keeps : (readable_bytes b == 0) ≡ nothing_in xs
  empty-Keeps = ap (λ n. n == 0) readable-Keeps ∙ nothing-length xs

  pub append-Keeps :
      (ys : List ℕ)
      → b.capacity * 2 + length ys < size_max
      → (r : Buffer × Heap) × (append ys b h ≡ some r) × Keeps (xs ++ ys) r.0 r.1
  append-Keeps ys small =
      let (b', h', bytes', e, r) = append-content ys k.live.0 k.holds k.live.1 small in
      (
        (b', h'),
        e,
        record {
          bytes = bytes';
          holds = r.holds;
          live = r.live;
          same = r.appended ∙ ap (λ zs. zs ++ ys) k.same;
        },
      )

  pub read_fd-Keeps :
      (ys : List ℕ)
      → b.capacity * 2 + length ys < size_max
      → (r : Buffer × Heap) × (read_fd (received ys) b h ≡ some r) × Keeps (xs ++ ys) r.0 r.1
  read_fd-Keeps ys small =
      let (b', h', bytes', e, r) = read_fd-content k.holds ys k.live.0 k.live.1 small in
      (
        (b', h'),
        e,
        record {
          bytes = bytes';
          holds = r.holds;
          live = r.live;
          same = r.appended ∙ ap (λ zs. zs ++ ys) k.same;
        },
      )

  pub offered-Keeps : offered b h ≡ some xs
  unfolding offered
  offered-Keeps = load-content k.holds ∙ ap some k.same

  drop-skipped : (n : ℕ) (ys : List ℕ) → drop n ys ≡ skipped n ys
  drop-skipped n ys =
      if_both (λ zs. drop n ys ≡ zs) {b = ltb n (length ys)} (drop n ys) [] (λ e. refl)
        (λ e. drop_all n ys (ground arith))

  pub skip-Keeps : (n : ℕ) → Keeps (skipped n xs) (skip n b) h
  unfolding skip
  skip-Keeps n =
      let (v, e) = skip-content k.holds n in
      record {
        bytes = k.bytes;
        holds = v;
        live = keep_Live (skip n b) h k.live.1 same_count (omega arith) refl;
        same = e ∙ ap (drop n) k.same ∙ drop-skipped n xs;
      }
    where
      same_count : (skip n b).ref_count ≡ b.ref_count
      same_count =
          if_both (λ (b' : Buffer). b'.ref_count ≡ b.ref_count) {b = ltb n (readable_bytes b)} _ _
            (λ e. refl) (λ e. refl)
