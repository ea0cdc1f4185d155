-- ===== src/Calls/Reread.antt =====
-- What the inode branch of filewrite in xv6/file.c writes, that of fileread gives back.
use tom_cs.Base.{
  ℕ, ◌+◌, ◌-◌, ◌<◌, ◌≤◌, ◌≡◌, ◌≢◌, ap, refl, sym, ◌∙◌, true, false, List, Option, none, some, ltb,
  ◌==◌, min, length, arith, update, Outcome, returns, panics,
}
use tom_cs.Files.{File}
use tom_cs.Fs.Disk.{Disk, read_sb}
use tom_cs.Fs.Bitmap.Data.{room}
use tom_cs.Fs.Bitmap.Healthy.{Healthy}
use tom_cs.Fs.Inode.{Inode, type_dev}
use tom_cs.Fs.Inode.Layout.{Fits}
use tom_cs.Fs.Map.Slots.{Maps}
use tom_cs.Fs.Map.Mapped.{lists}
use tom_cs.Fs.File.{Devices, readi, writei, max_bytes}
use tom_cs.Fs.File.Content.{bytes_of}
use tom_cs.Fs.File.Write.{span}
use tom_cs.Fs.File.Stored.{Stored, Writeis, writei-Writeis, readi-writei}
use tom_cs.Fs.Icache.{Icache, ilock, ilock_read, iunlock}
use tom_cs.Fs.Icache.Put.{busy_inode, busy-Maps, busy-Fits}
use tom_cs.Calls.{Run, ◌>>=◌, done, Store, lock, unlock}
use tom_cs.Calls.Transfer.{read_inode, write_inode, read_off, write_off}

-- An inode that is in use, has been read, and is not locked.
pub record Idle (ip : Inode) : Type 0 where
  pub held : 1 ≤ ip.ref
  pub free : ip.busy ≡ false
  pub valid : ip.valid ≡ true

lock-Idle :
    (k : ℕ) (c : Icache) (d : Disk)
    → Idle (c k)
    → lock k (c, d) ≡ done (update c k (busy_inode (c k)), d)
unfolding ilock ilock_read
lock-Idle k c d idle =
    let here : (k == k) ≡ true = ground arith in
    let held : ltb (c k).ref 1 ≡ false = ground (arith, idle.held) in
    rw (held, idle.free, here, idle.valid) refl

unlock_lem :
    (k : ℕ) (c : Icache) (d : Disk)
    → 1 ≤ (c k).ref
    → (c k).busy ≡ true
    → unlock k (c, d) ≡ done (update c k (record (c k) { busy = false }), d)
unfolding iunlock
unlock_lem k c d held busy =
    let held' : ltb (c k).ref 1 ≡ false = ground (arith, held) in rw (busy, held') refl

-- What `writei` that does not panic returns.
returned :
    (ip : Inode) (d : Disk) (off n : ℕ) (src : ℕ → ℕ) (r : Outcome (Option ℕ × Inode × Disk))
    → Writeis ip d off n src r
    → (ip' : Inode) × (d' : Disk) × (r ≡ returns (some n, ip', d')) × Stored ip d off n src ip' d'
returned ip d off n src (panics e) w = absurd w
returned ip d off n src (returns (none, ip', d')) w = absurd w
returned ip d off n src (returns (some m, ip', d')) (same, w) =
    (ip', d', ap (λ i. returns (some i, ip', d')) same, w)

module _ (devs : Devices) (c : Icache) (d : Disk) (n : ℕ) where
  read_step :
      (g : File) (bs : List ℕ)
      → Idle (c g.ip)
      → readi devs (busy_inode (c g.ip)) g.off n d ≡ returns (some bs)
      → (s : Store) × (read_inode devs g n (c, d)
          ≡ done (some bs, record g { off = g.off + length bs }, s))
  unfolding read_inode read_off
  read_step g bs idle got =
      let k = g.ip in
      let c1 = update c k (busy_inode (c k)) in
      let here : (k == k) ≡ true = ground arith in
      let held : 1 ≤ (c1 k).ref = rw here idle.held in
      let busy : (c1 k).busy ≡ true = rw here refl in
      let got' : readi devs (c1 k) g.off n d ≡ returns (some bs) = rw here got in
      (
        (update c1 k (record (c1 k) { busy = false }), d),
        rw (lock-Idle k c d idle, got', unlock_lem k c1 d held busy) refl,
      )

  -- The cache behind a write of the file in the slot `k`, which leaves the inode as `ip`.
  after_write : ℕ → Inode → Icache
  after_write k ip =
      let c2 = update (update c k (busy_inode (c k))) k ip in
      update c2 k (record (c2 k) { busy = false })

  write_step :
      (f : File) (src : ℕ → ℕ) (ip : Inode) (d' : Disk)
      → Idle (c f.ip)
      → 1 ≤ ip.ref
      → ip.busy ≡ true
      → writei devs (busy_inode (c f.ip)) f.off n src d ≡ returns (some n, ip, d')
      → write_inode devs f src n (c, d)
        ≡ done (some n, record f { off = f.off + n }, (after_write f.ip ip, d'))
  unfolding write_inode write_off after_write
  write_step f src ip d' idle ref is_busy wrote =
      let k = f.ip in
      let c2 = update (update c k (busy_inode (c k))) k ip in
      let here : (k == k) ≡ true = ground arith in
      let held : 1 ≤ (c2 k).ref = rw here ref in
      let busy : (c2 k).busy ≡ true = rw here is_busy in
      let wrote' : writei devs (update c k (busy_inode (c k)) k) f.off n src d
          ≡ returns (some n, ip, d') =
        rw here wrote in
      rw (lock-Idle k c d idle, wrote', unlock_lem k c2 d' held busy) refl

  after_write_lem : (k : ℕ) (ip : Inode) → after_write k ip k ≡ record ip { busy = false }
  unfolding after_write
  after_write_lem k ip = let here : (k == k) ≡ true = ground arith in rw here refl

-- The bind of Outcome.
abbrev thens {ℓ κ} : {A : Type ℓ} {B : Type κ} → Outcome A → (A → Outcome B) → Outcome B
thens (returns a) f = f a
thens (panics e) f = panics e

-- A read by `g` after a write: the count written, the offset after it, and the bytes read.
abbrev pub reread :
    Devices → File → ℕ → Option ℕ × File × Store → Run (Option ℕ × ℕ × Option (List ℕ))
reread devs g n (count, f, s) = read_inode devs g n s >>= λ (bs, g', s'). done (count, f.off, bs)

module _ (devs : Devices) (c : Icache) (d : Disk) (n : ℕ) (f g : File) (src : ℕ → ℕ) where
  -- The inode that is written is the one that is read, locked again.
  locked_again :
      (k : ℕ) (ip : Inode) → ip.busy ≡ true → busy_inode (after_write devs c d n k ip k) ≡ ip
  locked_again k ip busy =
      rw (after_write_lem devs c d n k ip) (ap (λ b. record ip { busy = b }) (sym busy))

  read_after :
      (ip : Inode) (d' : Disk) (bs : List ℕ)
      → g.ip ≡ f.ip
      → 1 ≤ ip.ref
      → ip.busy ≡ true
      → ip.valid ≡ true
      → readi devs ip g.off n d' ≡ returns (some bs)
      → (s : Store) × (read_inode devs g n (after_write devs c d n f.ip ip, d')
          ≡ done (some bs, record g { off = g.off + length bs }, s))
  read_after ip d' bs same held busy valid got =
      let k = f.ip in
      let c' = after_write devs c d n k ip in
      let now = after_write_lem devs c d n k ip in
      let idle : Idle (c' g.ip) =
        rw (same, now) (record { held = held; free = refl; valid = valid }) in
      let got' : readi devs (busy_inode (c' g.ip)) g.off n d' ≡ returns (some bs) =
        rw (same, locked_again k ip busy) got in
      read_step devs c' d' n g bs idle got'

  reread_lem :
      (ip : Inode) (d' : Disk) (bs : List ℕ)
      → g.ip ≡ f.ip
      → g.off ≡ f.off
      → Idle (c f.ip)
      → writei devs (busy_inode (c f.ip)) f.off n src d ≡ returns (some n, ip, d')
      → Stored (busy_inode (c f.ip)) d f.off n src ip d'
      → readi devs ip f.off n d' ≡ returns (some bs)
      → (write_inode devs f src n (c, d) >>= reread devs g n) ≡ done (some n, f.off + n, some bs)
  reread_lem ip d' bs same same_off idle wrote st back =
      let rest = st.writes.rest in
      let ref : ip.ref ≡ (c f.ip).ref = ap (λ p. p.ref) rest in
      let held : 1 ≤ ip.ref = omega (arith, ref, idle.held) in
      let busy : ip.busy ≡ true = ap (λ p. p.busy) rest in
      let valid : ip.valid ≡ true = ap (λ p. p.valid) rest ∙ idle.valid in
      let got = ap (λ o. readi devs ip o n d') same_off ∙ back in
      let again = read_after ip d' bs same held busy valid got in
      rw (write_step devs c d n f src ip d' idle held busy wrote, again.1) refl

  -- Two open files of one inode stand at the same offset, and the inode is in use, read and not
  -- locked. On a disk in order with room for the blocks and one more, the inode branch of
  -- filewrite on one, of at least one byte and below the limit, returns the count and moves that
  -- file on by it, and the inode branch of fileread on the other then gives back the bytes that
  -- were written.
  pub read_inode-write_inode :
      g.ip ≡ f.ip
      → g.off ≡ f.off
      → 1 ≤ n
      → f.off + n ≤ max_bytes
      → Idle (c f.ip)
      → (c f.ip).size ≤ max_bytes
      → (c f.ip).type ≢ type_dev
      → Maps (c f.ip) d
      → Healthy d
      → Fits (c f.ip)
      → (c f.ip).inum ≤ (read_sb d).ninodes
      → ((j : ℕ) → src j < 256)
      → span f.off n + 1 ≤ room d + lists (c f.ip) d
      → (write_inode devs f src n (c, d) >>= reread devs g n)
        ≡ done (some n, f.off + n, some (bytes_of src 0 n))
  read_inode-write_inode same same_off some_bytes le idle fits file maps h fit some_inode small
        space =
      let q = busy_inode (c f.ip) in
      let maps' = busy-Maps (c f.ip) d maps in
      let fit' = busy-Fits (c f.ip) fit in
      let all_bytes : min n (max_bytes - f.off) ≡ n = ground arith in
      let space' : span f.off (min n (max_bytes - f.off)) + 1 ≤ room d + lists q d =
        rw all_bytes space in
      let w =
        writei-Writeis devs q d f.off src n file (omega arith) (omega arith) maps' h fit' some_inode
          small space' in
      let back =
        readi-writei devs q d f.off n src some_bytes le fits file maps' h fit' some_inode small
          space in
      let out = returned q d f.off n src (writei devs q f.off n src d) (rw all_bytes at w) in
      reread_lem out.0 out.1 (bytes_of src 0 n) same same_off idle out.2 out.3
        (sym (ap (λ r. thens r (λ (count, ip, d'). readi devs ip f.off n d')) out.2) ∙ back)
