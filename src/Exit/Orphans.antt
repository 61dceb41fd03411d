-- ===== src/Exit/Orphans.antt =====
-- `do_exit` of a task other than the reaper: it ends, and what it leaves behind.
use mathlib.Core.List.{reverse_aux}
use hekaos_series.Base.{
  ℕ, ◌<◌, ◌≡◌, refl, ap, ◌∙◌, ◌≢◌, inl, inr, true, not, ◌&&◌, some, List, arith, ◌==◌,
  if◌then◌else◌, Bool-cases, update, length, update_self,
}
use hekaos_series.Word.{bit}
use hekaos_series.Tasks.{Ptr, null, Kernel, zombie}
use hekaos_series.Tasks.Chain.{has, Chain}
use hekaos_series.Signals.{sigchld, kernel_signal_send, set_state}
use hekaos_series.Signals.Send.{kernel_signal_send-Sent}
use hekaos_series.Exit.{reaper_of, notify_reaper, become_zombie, do_exit}
use hekaos_series.Exit.Reparent.{Family, HandedOver, reparent_all-HandedOver}

-- The tree is that of `k`, and so are the globals.
pub record SameTree (k k' : Kernel) : Type 0 where
  pub sibling : k'.sibling ≡ k.sibling
  pub children : k'.children ≡ k.children
  pub parent : k'.parent ≡ k.parent

send-SameTree : (t : Ptr) (k : Kernel) → SameTree k (kernel_signal_send t sigchld k)
send-SameTree t k =
    let sent = kernel_signal_send-Sent t sigchld k (omega arith) (omega arith) in
    record {
      sibling = ap (λ (j : Kernel). j.sibling) sent.rest;
      children = ap (λ (j : Kernel). j.children) sent.rest;
      parent = ap (λ (j : Kernel). j.parent) sent.rest;
    }

exit_code-send : (t : Ptr) (k : Kernel) → (kernel_signal_send t sigchld k).exit_code ≡ k.exit_code
exit_code-send t k =
    let sent = kernel_signal_send-Sent t sigchld k (omega arith) (omega arith) in
    ap (λ (j : Kernel). j.exit_code) sent.rest

exit_code-notify_reaper : (t : Ptr) (k : Kernel) → (notify_reaper t k).exit_code ≡ k.exit_code
unfolding notify_reaper
exit_code-notify_reaper t k = ground (arith, exit_code-send (reaper_of k) k)

notify_reaper-SameTree : (t : Ptr) (k : Kernel) → SameTree k (notify_reaper t k)
unfolding notify_reaper
notify_reaper-SameTree t k =
    elim (Bool-cases (not (k.children t == null) && not (reaper_of k == t))) [
      | inl told ↦ rw told (send-SameTree (reaper_of k) k)
      | inr untold ↦ rw untold (record { sibling = refl; children = refl; parent = refl })
    ]

-- What `do_exit (t, code)` leaves: `t` is a zombie with its exit code and no child; its children
-- `xs` are children of the reaper, before the reaper's own `ys`; SIGCHLD is pending for the parent.
pub record Exited (t code reaper : Ptr) (xs ys : List Ptr) (up : Ptr → Ptr) (k' : Kernel)
    : Type 0 where
  pub dead : k'.state t ≡ zombie
  pub status : k'.exit_code t ≡ code
  pub childless : k'.children t ≡ null
  pub inherited : Chain k'.sibling (k'.children reaper) (reverse_aux xs ys)
  pub parents : (a : Ptr) → k'.parent a ≡ (if has a xs then reaper else up a)
  pub told : k'.parent t ≢ null → bit (k'.pending (k'.parent t)) 16 ≡ true

become_zombie-Exited :
    (t code reaper : Ptr) (xs ys : List Ptr) (k j : Kernel)
    → HandedOver t reaper xs ys k j
    → j.exit_code t ≡ code
    → Exited t code reaper xs ys k.parent (become_zombie t j)
unfolding become_zombie
become_zombie-Exited t code reaper xs ys k j h coded = elim (Bool-cases (j.parent t == null)) [
  | inl root ↦ rw root (record {
    dead = ground arith;
    status = coded;
    childless = h.childless;
    inherited = h.target;
    parents = h.parents;
    told = λ ne. absurd (ne (ground arith));
  })
  | inr child ↦
      let z = set_state t zombie j in
      let same = send-SameTree (j.parent t) z in
      let sent = kernel_signal_send-Sent (j.parent t) sigchld z (omega arith) (omega arith) in
      rw child (record {
        dead = ground (arith, sent.state, sent.other_states t);
        status = rw (exit_code-send (j.parent t) z) coded;
        childless = rw (same.children) h.childless;
        inherited = rw (same.sibling, same.children) h.target;
        parents = rw (same.parent) h.parents;
        told = λ ne. rw (same.parent) (ground (arith, sent.signals 16));
      })
]

pub Family-SameTree :
    (t reaper : Ptr) (xs ys : List Ptr) (k k' : Kernel)
    → SameTree k k'
    → Family t reaper xs ys k
    → Family t reaper xs ys k'
Family-SameTree t reaper xs ys k k' same f = record {
  not_null = f.not_null;
  other = f.other;
  source = rw (same.sibling, same.children) f.source;
  target = rw (same.sibling, same.children) f.target;
  apart = f.apart;
  up = rw (same.parent) f.up;
}

-- `do_exit (t, code)` of a task other than the reaper, given more rounds than `t` has children, ends.
-- Then `t` is a zombie with that exit code and no child; its children are children of the reaper, the
-- last first, before the reaper's own, and have it as their parent; and SIGCHLD is pending for the
-- parent of `t`, if it has one.
pub do_exit-Exited :
    (fuel t code : ℕ) (xs ys : List Ptr) (k : Kernel)
    → length xs < fuel
    → Family t (reaper_of k) xs ys k
    → (k' : Kernel) × (do_exit fuel t code k ≡ some k')
      × Exited t code (reaper_of k) xs ys k.parent k'
unfolding do_exit
do_exit-Exited fuel t code xs ys k enough f =
    let k0 = record k { exit_code = update k.exit_code t code } in
    let k1 = notify_reaper t k0 in
    let same = notify_reaper-SameTree t k0 in
    let f0 =
      Family-SameTree t (reaper_of k) xs ys k k0
        (record { sibling = refl; children = refl; parent = refl }) f in
    let (j, done, h) =
      reparent_all-HandedOver fuel fuel t (reaper_of k) xs ys k1 enough
        (Family-SameTree t (reaper_of k) xs ys k0 k1 same f0) in
    let coded : j.exit_code t ≡ code =
      ap (λ (i : Kernel). i.exit_code t) h.rest
      ∙ ap (λ (e : Ptr → ℕ). e t) (exit_code-notify_reaper t k0)
      ∙ update_self k.exit_code t code in
    let left = become_zombie-Exited t code (reaper_of k) xs ys k1 j h coded in
    (become_zombie t j, rw done refl, rw same.parent at left)
