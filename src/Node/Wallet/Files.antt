-- ===== src/Node/Wallet/Files.antt =====
-- What is written to a wallet file is read from it again, and no wallet is overwritten.
use Prim.Native.String.{String}
use velodag_core.Prelude.{◌≡◌, refl, true, false, arith, ok, Result-cases, Bool-cases, inl, inr}
use velodag_core.Types.{Bytes}
use velodag_core.Crypto.{VeloKeyPair}
use velodag_core.Node.Wallet.{
  Tools, Entropy, seal, load, write_private, generate_at, create, load_or_create, copy_private,
  backup,
}
use velodag_core.Node.Wallet.Sealing.{ReadsWallets, IsDrawn, open_bytes-seal}

module _ (tools : Tools) where
  -- What is documented of the files: what is written is read, a copy reads as its source, and
  -- permissions change no content.
  pub record KeepsFiles : Type 0 where
    pub reads_written :
        (path : String) (bytes : Bytes) (disk : tools.fs.Disk)
        → (tools.fs.write path bytes disk).1 ≡ ok tt
        → tools.fs.read path (tools.fs.write path bytes disk).0 ≡ ok bytes
    pub reads_copied :
        (source destination : String) (disk : tools.fs.Disk)
        → (tools.fs.copy source destination disk).1 ≡ ok tt
        → tools.fs.read destination (tools.fs.copy source destination disk).0
          ≡ tools.fs.read source disk
    pub keeps_content :
        (path asked : String) (disk : tools.fs.Disk)
        → tools.fs.read asked (tools.fs.set_permissions path disk).0 ≡ tools.fs.read asked disk

  module _ (reads : ReadsWallets tools) (keeps : KeepsFiles) where
    write_private-read :
        (path : String) (bytes : Bytes) (disk : tools.fs.Disk)
        → (write_private tools path bytes disk).1 ≡ ok tt
        → tools.fs.read path (write_private tools path bytes disk).0 ≡ ok bytes
    unfolding write_private
    write_private-read path bytes disk done =
        let written = tools.fs.write path bytes disk in
        elim (Result-cases written.1) [
          | inr (e, failed) ↦ absurd (ground (arith, done, failed))
          | inl (_, wrote) ↦
              let there = keeps.reads_written path bytes disk wrote in
              let same = keeps.keeps_content path path written.0 in
              ground (arith, wrote, done, there, same)
        ]

    generate_at-load :
        (path : String) (drawn : Entropy (tools.scheme)) (disk : tools.fs.Disk)
        (keys : VeloKeyPair (tools.scheme))
        → IsDrawn tools drawn
        → (generate_at tools path drawn disk).1 ≡ ok keys
        → (keys ≡ drawn.keys)
          × (load tools path (generate_at tools path drawn disk).0 ≡ ok drawn.keys)
    unfolding generate_at load
    generate_at-load path drawn disk keys d done = elim (Result-cases (seal tools drawn)) [
      | inr (e, failed) ↦ absurd (ground (arith, done, failed))
      | inl (bytes, sealed) ↦ elim (Result-cases (write_private tools path bytes disk).1) [
        | inr (e, failed) ↦ absurd (ground (arith, done, sealed, failed))
        | inl (_, wrote) ↦ (
          ground (arith, done, sealed, wrote),
          ground (
            arith,
            sealed,
            wrote,
            write_private-read path bytes disk wrote,
            open_bytes-seal tools reads drawn bytes d sealed,
          ),
        )
      ]
    ]

    -- What `create` has made, `load` reads with the same password: the very keys that were drawn;
    -- and no file stood at the path before.
    pub load-create :
        (path : String) (drawn : Entropy (tools.scheme)) (disk : tools.fs.Disk)
        (keys : VeloKeyPair (tools.scheme))
        → IsDrawn tools drawn
        → (create tools path drawn disk).1 ≡ ok keys
        → (tools.fs.exists path disk ≡ false)
          × (keys ≡ drawn.keys)
          × (load tools path (create tools path drawn disk).0 ≡ ok drawn.keys)
    unfolding create
    load-create path drawn disk keys d done = elim (Bool-cases (tools.fs.exists path disk)) [
      | inl taken ↦ absurd (ground (arith, done, taken))
      | inr free ↦
          let made : (generate_at tools path drawn disk).1 ≡ ok keys = ground (arith, free, done) in
          let (same, loaded) = generate_at-load path drawn disk keys d made in
          (free, same, ground (arith, free, loaded))
    ]

    -- A node that draws its miner keys finds the same ones at its next start.
    pub load_or_create-again :
        (path : String) (drawn drawn' : Entropy (tools.scheme)) (disk : tools.fs.Disk)
        (keys : VeloKeyPair (tools.scheme))
        → IsDrawn tools drawn
        → (load_or_create tools path drawn disk).1 ≡ ok keys
        → tools.fs.exists path (load_or_create tools path drawn disk).0 ≡ true
        → load_or_create tools path drawn' (load_or_create tools path drawn disk).0
          ≡ ((load_or_create tools path drawn disk).0, ok keys)
    unfolding load_or_create
    load_or_create-again path drawn drawn' disk keys d done stays =
        elim (Bool-cases (tools.fs.exists path disk)) [
          | inl there ↦ ground (arith, there, done, stays)
          | inr free ↦
              let made : (generate_at tools path drawn disk).1 ≡ ok keys =
                ground (arith, free, done) in
              let (same, loaded) = generate_at-load path drawn disk keys d made in
              ground (arith, free, stays, same, loaded)
        ]

    copy_private-read :
        (source destination : String) (disk : tools.fs.Disk)
        → (copy_private tools source destination disk).1 ≡ ok tt
        → tools.fs.read destination (copy_private tools source destination disk).0
          ≡ tools.fs.read source disk
    unfolding copy_private
    copy_private-read source destination disk done =
        let copied = tools.fs.copy source destination disk in
        elim (Result-cases copied.1) [
          | inr (e, failed) ↦ absurd (ground (arith, done, failed))
          | inl (_, wrote) ↦
              let there = keeps.reads_copied source destination disk wrote in
              let same = keeps.keeps_content destination destination copied.0 in
              ground (arith, wrote, done, there, same)
        ]

    -- A backup that succeeds goes to a path where no file stood, and loads to the keys of its source.
    pub load-backup :
        (source destination : String) (disk : tools.fs.Disk)
        → (backup tools source destination disk).1 ≡ ok tt
        → (keys : VeloKeyPair (tools.scheme)) × (load tools source disk ≡ ok keys)
          × (tools.fs.exists destination disk ≡ false)
          × (load tools destination (backup tools source destination disk).0 ≡ ok keys)
    unfolding backup
    load-backup source destination disk done = elim (Result-cases (load tools source disk)) [
      | inr (e, failed) ↦ absurd (ground (arith, done, failed))
      | inl (keys, loaded) ↦ elim (Bool-cases (tools.fs.exists destination disk)) [
        | inl taken ↦ absurd (ground (arith, done, loaded, taken))
        | inr free ↦
            let copied : (copy_private tools source destination disk).1 ≡ ok tt =
              ground (arith, done, loaded, free) in
            let same =
              load-read source destination disk (copy_private tools source destination disk).0
                (copy_private-read source destination disk copied) in
            (keys, loaded, free, ground (arith, loaded, free, same))
      ]
    ]
      where
        load-read :
            (source destination : String) (disk after : tools.fs.Disk)
            → tools.fs.read destination after ≡ tools.fs.read source disk
            → load tools destination after ≡ load tools source disk
        load-read source destination disk after e = unfold load in rw (e, load) refl
