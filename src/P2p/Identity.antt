-- ===== src/P2p/Identity.antt =====
-- internal/p2p/identity.go and libp2p_identity.go: the key of a node, which is kept in a file. The file
-- system and the cryptographic libraries are interfaces, and a fresh key is an argument.
pub mod Kept
use gpuswarm.Common.{Bool, Option, none, some, Str, is_empty, if◌then◌else◌, Result, ok, err}
use gpuswarm.Common.Files.{FileSystem}

-- A scheme of keys, with the file's text for a private key.
pub record Keys : Type 1 where
  pub Priv : Type 0
  pub Pub : Type 0
  pub public : Priv → Pub
  pub marshal : Priv → Result Str Str
  pub unmarshal : Str → Result Str Priv

pub record KeyPair (keys : Keys) : Type 0 where
  pub priv_key : keys.Priv
  pub pub_key : keys.Pub

pub record Identity (keys : Keys) : Type 0 where
  pub peer_id : Str
  pub pair : KeyPair keys

pub data IdentityError : Type 0 where
  unreadable not_generated not_written : Str → IdentityError

module _ (fs : FileSystem) (keys : Keys) where
  open fs use {Disk, read, mkdir_all, write, dir}
  open keys use {Priv, Pub, public, marshal, unmarshal}

  abbrev pub Made : Type 0
  Made = Disk × Result IdentityError (KeyPair keys)

  -- The key that a file holds.
  unfoldable pub loaded : Result Str Priv → Result IdentityError (KeyPair keys)
  loaded (err e) = err (unreadable e)
  loaded (ok pk) = ok (record { priv_key = pk; pub_key = public pk })

  unfoldable pub written : KeyPair keys → Disk × Option Str → Made
  written id (d, some e) = (d, err (not_written e))
  written id (d, none) = (d, ok id)

  unfoldable pub write_key : KeyPair keys → Disk → Str → Result Str Str → Made
  write_key id d path (err e) = (d, err (not_written e))
  write_key id d path (ok enc) = written id (write d path enc)

  unfoldable pub store_in : KeyPair keys → Str → Disk × Option Str → Made
  store_in id path (d, some e) = (d, err (not_written e))
  store_in id path (d, none) = write_key id d path (marshal id.priv_key)

  unfoldable pub store : Disk → Str → KeyPair keys → Made
  store d path id = if is_empty path then (d, ok id) else store_in id path (mkdir_all d (dir path))

  unfoldable pub create : Disk → Str → Result Str (KeyPair keys) → Made
  create d path (err e) = (d, err (not_generated e))
  create d path (ok id) = store d path id

  -- LoadOrCreateLibp2pIdentity
  unfoldable pub load_or_create : Disk → Str → Result Str (KeyPair keys) → Made
  load_or_create d path fresh =
      let created = create d path fresh in
      if is_empty path
      then created
      else elim (read d path) [ none ↦ created | some b ↦ (d, loaded (unmarshal b)) ]

  module _ (peer_id_from_pub : Pub → Str) where
    unfoldable pub with_peer_id : Made → Disk × Result IdentityError (Identity keys)
    with_peer_id (d, err e) = (d, err e)
    with_peer_id (d, ok id) = (d, ok (record { peer_id = peer_id_from_pub id.pub_key; pair = id }))

    -- LoadOrCreateIdentity, whose keys are marshalled as a PEM block: the same steps, with the peer's ID
    -- made of the public key.
    unfoldable pub load_or_create_identity :
        Disk → Str → Result Str (KeyPair keys) → Disk × Result IdentityError (Identity keys)
    load_or_create_identity d path fresh = with_peer_id (load_or_create d path fresh)
