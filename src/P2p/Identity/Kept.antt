-- ===== src/P2p/Identity/Kept.antt =====
-- A node keeps its key.
use gpuswarm.Common.{
  false, Option, none, some, Str, is_empty, Result, ok, err, ◌≡◌, refl, ◌∙◌, Option-cases, inl, inr,
}
use gpuswarm.Common.Files.{FileSystem}
use gpuswarm.P2p.Identity.{
  Keys, KeyPair, loaded, written, write_key, store_in, store, create, load_or_create,
}

module _ (fs : FileSystem) (keys : Keys) where
  open fs use {Disk, read, write}
  open keys use {Priv, public, marshal, unmarshal}

  -- The file holds the key pair.
  pub record Holds (d : Disk) (path : Str) (id : KeyPair keys) : Type 0 where
    pub text : Str
    pub is_read : read d path ≡ some text
    pub is_loaded : loaded fs keys (unmarshal text) ≡ ok id

  load_again :
      (d : Disk) (path : Str) (fresh : Result Str (KeyPair keys)) (id : KeyPair keys)
      → is_empty path ≡ false
      → Holds d path id
      → load_or_create fs keys d path fresh ≡ (d, ok id)
  unfolding load_or_create
  load_again d path fresh id p h = rw (p, h.is_read, h.is_loaded) refl

  module _ (path : Str) (pair id : KeyPair keys)
      (reads : (d : Disk) (text : Str)
        → (write d path text).1 ≡ none
        → read (write d path text).0 path ≡ some text)
      (unmarshals : (pk : Priv) (text : Str) → marshal pk ≡ ok text → unmarshal text ≡ ok pk)
      (belongs : public pair.priv_key ≡ pair.pub_key) where
    written-Holds :
        (w : Disk × Option Str) (text : Str)
        → (w.1 ≡ none → read w.0 path ≡ some text)
        → loaded fs keys (unmarshal text) ≡ ok pair
        → (written fs keys pair w).1 ≡ ok id
        → Holds (written fs keys pair w).0 path id
    unfolding written
    written-Holds (d, some e) text r l h = cc
    written-Holds (d, none) text r l h = record { text = text; is_read = r refl; is_loaded = l ∙ h }

    key_loaded :
        (text : Str) → marshal pair.priv_key ≡ ok text → loaded fs keys (unmarshal text) ≡ ok pair
    unfolding loaded
    key_loaded text h = rw (unmarshals pair.priv_key text h, belongs) refl

    write_key-Holds :
        (d : Disk) (m : Result Str Str)
        → ((text : Str) → m ≡ ok text → loaded fs keys (unmarshal text) ≡ ok pair)
        → (write_key fs keys pair d path m).1 ≡ ok id
        → Holds (write_key fs keys pair d path m).0 path id
    unfolding write_key
    write_key-Holds d (err e) l h = cc
    write_key-Holds d (ok text) l h =
        written-Holds (write d path text) text (reads d text) (l text refl) h

    store_in-Holds :
        (m : Disk × Option Str)
        → (store_in fs keys pair path m).1 ≡ ok id
        → Holds (store_in fs keys pair path m).0 path id
    unfolding store_in
    store_in-Holds (d, some e) h = cc
    store_in-Holds (d, none) h = write_key-Holds d (marshal pair.priv_key) key_loaded h

  create-Holds :
      (d : Disk) (path : Str) (fresh : Result Str (KeyPair keys)) (id : KeyPair keys)
      → is_empty path ≡ false
      → ((d' : Disk) (text : Str)
          → (write d' path text).1 ≡ none
          → read (write d' path text).0 path ≡ some text)
      → ((pk : Priv) (text : Str) → marshal pk ≡ ok text → unmarshal text ≡ ok pk)
      → ((pair : KeyPair keys) → fresh ≡ ok pair → public pair.priv_key ≡ pair.pub_key)
      → (create fs keys d path fresh).1 ≡ ok id
      → Holds (create fs keys d path fresh).0 path id
  unfolding create store
  create-Holds d path (err e) id p reads unmarshals belongs h = cc
  create-Holds d path (ok pair) id p reads unmarshals belongs h =
      rw p (store_in-Holds path pair id reads unmarshals (belongs pair refl) _ (rw p at h))

  -- A node that is started again with the same file has the same key, and the file stays as it is,
  -- whatever key is fresh then: if a path is given, what is written is read, keys are marshalled so
  -- that they can be read back, and the fresh pair's public key belongs to its private key.
  pub identity_kept :
      (d : Disk) (path : Str) (fresh fresh' : Result Str (KeyPair keys)) (id : KeyPair keys)
      → is_empty path ≡ false
      → ((d' : Disk) (text : Str)
          → (write d' path text).1 ≡ none
          → read (write d' path text).0 path ≡ some text)
      → ((pk : Priv) (text : Str) → marshal pk ≡ ok text → unmarshal text ≡ ok pk)
      → ((pair : KeyPair keys) → fresh ≡ ok pair → public pair.priv_key ≡ pair.pub_key)
      → (load_or_create fs keys d path fresh).1 ≡ ok id
      → load_or_create fs keys (load_or_create fs keys d path fresh).0 path fresh'
        ≡ ((load_or_create fs keys d path fresh).0, ok id)
  unfolding load_or_create
  identity_kept d path fresh fresh' id p reads unmarshals belongs h =
      load_again (load_or_create fs keys d path fresh).0 path fresh' id p
        (elim (Option-cases (read d path)) [
          | inr (b, e) ↦ rw (p, e) (record { text = b; is_read = e; is_loaded = rw (p, e) at h })
          | inl e ↦
              rw (p, e) (create-Holds d path fresh id p reads unmarshals belongs (rw (p, e) at h))
        ])
