-- ===== src/Persistence/ArtifactStore/Addressing.antt =====
-- The artifact store as a store addressed by content.
use brain.Persistence.ArtifactStore.{
  new_meta, bytes_of, put_ref, Artifact, MemArtifactStore, PutTimes, compute_key, put, get,
  recorded, counted,
}
use brain.Prelude.Assoc.{lookup, insert, delete, lookup-insert, lookup-delete, beq_refl}
use brain.Prelude.Int.{ℤ, int_eq}
use brain.Prelude.{
  String, ◌≡◌, refl, sym, ap, ◌∙◌, ◌≢◌, ◌⊎◌, inl, inr, false, Option, none, some, if◌then◌else◌,
  nat_eq, string_eq, ◌==◌, Bool-cases,
}
use brain.Prelude.Result.{Result, ok, err}
use brain.Prelude.Assoc
use brain.Prelude.Text.{Bytes, is_bytes, is_bytes_iff}
use brain.Persistence.ArtifactMeta
use brain.Persistence.ArtifactMeta.{MetaStore, inc_ref_count}

module _ (sha256_hex : Bytes → String) where
  -- All bytes stand under their own key.
  unfoldable pub IsAddressed : MemArtifactStore → Type 0
  IsAddressed s =
      (ref : String) (content : Bytes)
      → Assoc.lookup ref s.bytes_by ≡ some content
      → compute_key sha256_hex content ≡ ref

  -- What comes of a Put: the bytes under their key, or others with the same key, or an error and the
  -- bytes that were there.
  pub Stores : MemArtifactStore → Artifact → MemArtifactStore × Result String → Type 0
  Stores s a (s', ok ref) =
      (ref ≡ compute_key sha256_hex a.content)
      × ((content : Bytes) × (get sha256_hex s' false ref ≡ ok content)
          × ((content ≡ a.content)
              ⊎ ((content ≢ a.content)
                  × (compute_key sha256_hex content ≡ compute_key sha256_hex a.content))))
  Stores s a (s', err code) =
      (ref : String) → get sha256_hex s' false ref ≡ get sha256_hex s false ref

  same_or_other : (x y : Bytes) → (x ≡ y) ⊎ (x ≢ y)
  same_or_other x y = elim (Bool-cases (is_bytes x y)) [
    | inl e ↦ inl ((is_bytes_iff x y).0 e)
    | inr e ↦ inr (λ q. let t = (is_bytes_iff x y).1 q in cc)
  ]

  counted-Stores :
      (s : MemArtifactStore) (a : Artifact) (there : Bytes) (r : MetaStore × Option String)
      → IsAddressed s
      → Assoc.lookup (compute_key sha256_hex a.content) s.bytes_by ≡ some there
      → Stores s a (counted sha256_hex s (compute_key sha256_hex a.content) r)
  unfolding Stores get
  counted-Stores s a there (m, some code) h q = λ ref. refl
  counted-Stores s a there (m, none) h q = (
    refl,
    (
      there,
      rw q refl,
      elim (same_or_other there a.content) [
        | inl e ↦ inl e
        | inr n ↦ inr (n, unfold IsAddressed in h (compute_key sha256_hex a.content) there q)
      ],
    ),
  )

  -- The bytes go in and out again.
  undone :
      (s : MemArtifactStore) (a : Artifact) (ref : String)
      → Assoc.lookup (compute_key sha256_hex a.content) s.bytes_by ≡ none
      → Assoc.lookup ref (
          Assoc.delete
            (compute_key sha256_hex a.content)
            (Assoc.insert (compute_key sha256_hex a.content) a.content s.bytes_by))
        ≡ Assoc.lookup ref s.bytes_by
  undone s a ref q =
      let key = compute_key sha256_hex a.content in
      elim (Bool-cases (key == ref)) [
        | inr e ↦
            rw
              (
                lookup-delete key ref (Assoc.insert key a.content s.bytes_by),
                lookup-insert key ref a.content s.bytes_by,
                e,
              )
              refl
        | inl e ↦
            let same : key ≡ ref = (string_eq.beq_iff key ref).0 e in
            rw (lookup-delete key ref (Assoc.insert key a.content s.bytes_by), e)
              (sym (sym (ap (λ k. Assoc.lookup k s.bytes_by) same) ∙ q))
      ]

  recorded-Stores :
      (s : MemArtifactStore) (a : Artifact) (r : MetaStore × Option String)
      → Assoc.lookup (compute_key sha256_hex a.content) s.bytes_by ≡ none
      → Stores s a (
          recorded sha256_hex
            (record s {
              bytes_by = Assoc.insert (compute_key sha256_hex a.content) a.content s.bytes_by;
            })
            (compute_key sha256_hex a.content)
            r)
  unfolding Stores get
  recorded-Stores s a (m, some code) q = λ ref. ap (bytes_of sha256_hex) (undone s a ref q)
  recorded-Stores s a (m, none) q =
      let key = compute_key sha256_hex a.content in
      (
        refl,
        (a.content, rw (lookup-insert key key a.content s.bytes_by, beq_refl key) refl, inl refl),
      )

  insert-IsAddressed :
      (s : MemArtifactStore) (a : Artifact)
      → IsAddressed s
      → IsAddressed (record s {
        bytes_by = Assoc.insert (compute_key sha256_hex a.content) a.content s.bytes_by;
      })
  unfolding IsAddressed
  insert-IsAddressed s a h ref content found =
      let key = compute_key sha256_hex a.content in
      let split = sym (lookup-insert key ref a.content s.bytes_by) ∙ found in
      elim (Bool-cases (key == ref)) [
        | inl e ↦
            let here : some a.content ≡ some content =
              ap (λ b. if b then some a.content else Assoc.lookup ref s.bytes_by) (sym e) ∙ split in
            let same : key ≡ ref = (string_eq.beq_iff key ref).0 e in cc
        | inr e ↦
            h ref content
              (ap (λ b. if b then some a.content else Assoc.lookup ref s.bytes_by) (sym e) ∙ split)
      ]

  counted-IsAddressed :
      (s : MemArtifactStore) (a : Artifact) (r : MetaStore × Option String)
      → IsAddressed s
      → IsAddressed (counted sha256_hex s (compute_key sha256_hex a.content) r).0
  unfolding IsAddressed
  counted-IsAddressed s a (m, some code) h = h
  counted-IsAddressed s a (m, none) h = h

  recorded-IsAddressed :
      (s : MemArtifactStore) (a : Artifact) (r : MetaStore × Option String)
      → Assoc.lookup (compute_key sha256_hex a.content) s.bytes_by ≡ none
      → IsAddressed s
      → IsAddressed
          (recorded sha256_hex
            (record s {
              bytes_by = Assoc.insert (compute_key sha256_hex a.content) a.content s.bytes_by;
            })
            (compute_key sha256_hex a.content)
            r).0
  unfolding IsAddressed
  recorded-IsAddressed s a (m, some code) q h =
      λ ref content found. h ref content (sym (undone s a ref q) ∙ found)
  recorded-IsAddressed s a (m, none) q h =
      λ ref content found. insert-IsAddressed s a h ref content found

  put_ref-IsAddressed :
      (s : MemArtifactStore) (run_id : ℤ) (a : Artifact) (t : PutTimes) (o : Option Bytes)
      → Assoc.lookup (compute_key sha256_hex a.content) s.bytes_by ≡ o
      → IsAddressed s
      → let r = put_ref sha256_hex s run_id a t (compute_key sha256_hex a.content) o in
        IsAddressed r.0 × Stores s a r
  put_ref-IsAddressed s run_id a t (some there) q h =
      let r = inc_ref_count s.meta t.meta_ctx_err t.meta_now (compute_key sha256_hex a.content) in
      (counted-IsAddressed s a r h, counted-Stores s a there r h q)
  put_ref-IsAddressed s run_id a t none q h =
      let key = compute_key sha256_hex a.content in
      let r =
        ArtifactMeta.put s.meta t.meta_ctx_err t.meta_now
          (some (new_meta sha256_hex run_id a key t.now)) in
      (recorded-IsAddressed s a r q h, recorded-Stores s a r q)

  -- In a store whose bytes all stand under their own key, every Put keeps it so. Where it returns a
  -- reference, this is the content's key, and Get of it returns the content, unless other bytes with
  -- the same key were there before, which it then returns. Where it returns an error, whether from the
  -- context or from the metadata, Get returns for every reference what it did before.
  pub put_lem :
      (s : MemArtifactStore) (run_id : ℤ) (a : Artifact) (t : PutTimes)
      → IsAddressed s
      → IsAddressed (put sha256_hex s run_id a t).0 × Stores s a (put sha256_hex s run_id a t)
  unfolding put
  put_lem s run_id a t h = elim (Bool-cases t.ctx_err) [
    | inl e ↦ rw e (h, unfold Stores in λ ref. refl)
    | inr e ↦ rw e (
        put_ref-IsAddressed s run_id a t
          (Assoc.lookup (compute_key sha256_hex a.content) s.bytes_by) refl h)
  ]
