-- ===== src/Link/Main.antt =====
-- `main` of adi-sw/xcomm2ip.c around its loop, and of adi-sw/xcomm2ip_m.c around its own.
use adi_bbp.Common.{
  ℕ, ◌-◌, ◌^◌, ◌≡◌, ◌<◌, refl, Bool, true, false, Option, none, some, List, [], ltb, ◌==◌, not,
  if◌then◌else◌,
}
use adi_bbp.Tx.Memory.{Array}
use adi_bbp.Link.{TxMsg, Bus, Printed, Node, start, run}
use adi_bbp.Link.Net.{fresh}
use adi_bbp.Link.Sender.{length, Lines, session, session_lem}

-- What `mmap` gives: an address, NULL, or MAP_FAILED, which is not NULL.
pub data Mapping : Type 0 where
  mapped : Mapping
  null : Mapping
  map_failed : Mapping

-- What the system answers before the loop. `fd` is what `open` gives, as the bit pattern of an `int`.
pub record Host : Type 0 where
  pub ftok_failed : Bool
  pub msgget_failed : Bool
  pub fd : ℕ
  pub mmap : Mapping

pub data Complaint : Type 0 where
  no_key : Complaint
  no_queue : Complaint
  no_device : Complaint
  no_map : Complaint

-- How `main` of the node ends: it returns -1 with a message, with the device open or not; it writes
-- through MAP_FAILED; it has left its loop, unmapped and closed the device, and returns 0; or it is
-- still in the loop.
pub data NodeEnd (bus : Bus) : Type 0 where
  refused : Complaint → (device_open : Bool) → NodeEnd bus
  crashed : NodeEnd bus
  ended : List Printed → bus.State → NodeEnd bus
  running : Node → List Printed → bus.State → NodeEnd bus

module _ (bus : Bus) where
  -- Behind `mmap`, with what the message and the two frames hold at first.
  pub with_map : (rounds : ℕ) (m : TxMsg) (ws ws' : Array ℕ) → Mapping → bus.State → NodeEnd bus
  with_map rounds m ws ws' null b = refused no_map true
  with_map rounds m ws ws' map_failed b = crashed
  with_map rounds m ws ws' mapped b =
      let ((s, out, left), b') = run bus rounds (fresh m ws ws') (start bus b) in
      if left then ended out b' else running s out b'

  -- `xcomm2ip_fp < 1`
  pub unusable : ℕ → Bool
  unusable fd = if fd == 0 then true else not (ltb fd (2 ^ 31))

  pub main : (rounds : ℕ) (host : Host) (m : TxMsg) (ws ws' : Array ℕ) → bus.State → NodeEnd bus
  main rounds host m ws ws' b =
      if host.ftok_failed
      then refused no_key false
      else if host.msgget_failed
      then refused no_queue false
      else if unusable host.fd
      then refused no_device false
      else with_map rounds m ws ws' host.mmap b

-- `main` of the sender: the exit code and the texts that it gives to `msgsnd`, or `none` while it
-- has not left its loop.
pub sender_main :
    (ftok_failed msgget_failed msgctl_failed : Bool) (lines : ℕ) (input : List ℕ)
    → Option (ℕ × List (List ℕ))
sender_main ftok_failed msgget_failed msgctl_failed lines input =
    if ftok_failed
    then some (2 ^ 32 - 1, [])
    else if msgget_failed
    then some (2 ^ 32 - 1, [])
    else (let (texts, left) = session lines input in
        if left then some ((if msgctl_failed then 2 ^ 32 - 1 else 0), texts) else none)

-- With a queue that can be made and removed, and of an input of lines that are not empty and an
-- empty one behind them, the sender gives the first 20 characters of each line to the queue, in
-- order, and returns 0, once it may read a line more than there are texts; if the queue cannot be
-- removed it returns -1, with the same texts.
pub sender_main_lem :
    (msgctl_failed : Bool) (lines : ℕ) {texts : List (List ℕ)} {input : List ℕ}
    → Lines texts input
    → length texts < lines
    → sender_main false false msgctl_failed lines input
      ≡ some ((if msgctl_failed then 2 ^ 32 - 1 else 0), texts)
unfolding sender_main
sender_main_lem msgctl_failed lines ls enough = rw (session_lem lines ls enough) refl
