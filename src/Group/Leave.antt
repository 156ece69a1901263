-- ===== src/Group/Leave.antt =====
-- `leaveGroup` takes one process out of its group.
use mirai_os.Prelude.{
  ℕ, ◌≡◌, ◌≢◌, refl, sym, ap, ◌∙◌, ◌==◌, true, false, ◌&&◌, if◌then◌else◌, List, [], ◌∷◌, ◌++◌,
  arith, append_nil,
}
use mirai_os.ThreadQueue.Links.{head_or, last_or, mem-last_or, last_or-append}
use mirai_os.RbTree.{Ptr, null}
use mirai_os.RbTree.Delete.{Run, done, rb_delete}
use mirai_os.Group.{
  Groups, put_member, leave_prev, leave_next, leave_members, leave_group, forget_group,
  delete_group, unlink_group,
}
use mirai_os.Group.Chain.{
  Chain, IsGroup, Chain-at, Chain-without, head_or-ne, last_or-ne, Chain-apart, Chain-behind,
}

-- `leave_members` from the values that it reads.
abbrev left : (g proc prev next : Ptr) → Groups → Groups
left g proc prev next w =
    let w2 = leave_next g prev next (leave_prev g prev next w) in
    put_member proc (record (w2.members proc) { grp_next = null; grp_prev = null }) w2

module _ (g proc prev next : Ptr) (w : Groups) (low : proc ≢ prev) (high : proc ≢ next) where
  leave_members-left :
      (w.members proc).group ≡ g
      → (w.members proc).grp_prev ≡ prev
      → (w.members proc).grp_next ≡ next
      → leave_members proc w ≡ left g proc prev next w
  unfolding leave_members leave_prev
  leave_members-left a b c =
      let w1 = leave_prev g prev next w in
      let kept : w1.members proc ≡ w.members proc = ground arith in
      let m = w.members proc in
      let finish = λ (w2 : Groups).
        put_member proc (record (w2.members proc) { grp_next = null; grp_prev = null }) w2 in
      let from : Ptr → Ptr → Ptr → Groups = λ h pv nx.
        let v = leave_prev h pv nx w in
        finish (leave_next h (v.members proc).grp_prev (v.members proc).grp_next v) in
      ap (λ h. from h m.grp_prev m.grp_next) a
      ∙ ap (λ pv. from g pv m.grp_next) b
      ∙ ap (λ nx. from g prev nx) c
      ∙ ap (λ k. finish (leave_next g k.grp_prev k.grp_next w1)) kept
      ∙ ap (λ pv. finish (leave_next g pv m.grp_next w1)) b
      ∙ ap (λ nx. finish (leave_next g prev nx w1)) c

  left_members :
      (y : Ptr)
      → y ≢ proc
      → y ≢ null
      → prev ≢ next
      → ((y == next) ≡ true
          → (left g proc prev next w).members y ≡ record (w.members y) { grp_prev = prev })
        × ((y == prev) ≡ true
            → (left g proc prev next w).members y ≡ record (w.members y) { grp_next = next })
        × ((y == prev) ≡ false
            → (y == next) ≡ false
            → (left g proc prev next w).members y ≡ w.members y)
  unfolding leave_prev leave_next
  left_members y a b c = (λ e. ground arith, λ e. ground arith, λ e f. ground arith)

  left_first :
      ((left g proc prev next w).groups g).first
      ≡ (if prev == null then next else (w.groups g).first)
  unfolding leave_prev leave_next
  left_first = ground arith

  left_last :
      ((left g proc prev next w).groups g).last ≡ (if next == null then prev else (w.groups g).last)
  unfolding leave_prev leave_next
  left_last = ground arith

-- What `leaveGroup` of `p` leaves of a group that is not empty then.
pub record LeftGroup (w w' : Groups) (g p : Ptr) (xs ys : List Ptr) : Type 0 where
  pub is_group : IsGroup w' g (xs ++ ys)
  pub group : (w'.members p).group ≡ null
  pub links : ((w'.members p).grp_next ≡ null) × ((w'.members p).grp_prev ≡ null)

module _ (w : Groups) (g p : Ptr) (xs ys : List Ptr) (is : IsGroup w g (xs ++ p ∷ ys))
    (some_left : head_or null (xs ++ ys) ≢ null) where
  apart : last_or null xs ≢ head_or null ys
  apart = go xs is some_left
    where
      go :
          (xs : List Ptr)
          → IsGroup w g (xs ++ p ∷ ys)
          → head_or null (xs ++ ys) ≢ null
          → last_or null xs ≢ head_or null ys
      go [] is n = λ e. n (sym e)
      go (x ∷ l) is n =
          let b =
            Chain-apart w.members g null p (last_or x l) (x ∷ l) ys is.links (mem-last_or x l) in
          head_or-ne (last_or x l) ys b.1 b.0

  left-Chain :
      Chain
        (forget_group p (left g p (last_or null xs) (head_or null ys) w)).members
        g
        null
        (xs ++ ys)
  left-Chain =
      let at = Chain-at w.members g null p xs ys is.links in
      let low = last_or-ne p xs at.0 at.4 in
      let high = head_or-ne p ys at.0 at.5 in
      let facts = left_members g p (last_or null xs) (head_or null ys) w low high in
      let final = (forget_group p (left g p (last_or null xs) (head_or null ys) w)).members in
      let kept : (y : Ptr)
          → y ≢ p
          → final y ≡ (left g p (last_or null xs) (head_or null ys) w).members y =
        λ y ne. ground arith in
      Chain-without w.members final g null p xs ys is.links
        (λ y m.
          let b = Chain-behind w.members g null p y xs ys is.links m in
          let f = facts y b.1 b.0 apart in
          (
            λ e. kept y b.1 ∙ f.0 e,
            λ e. kept y b.1 ∙ f.2 (let ne = last_or-ne y xs b.0 b.2 in ground arith) e,
          ))
        (λ x m.
          let b = Chain-apart w.members g null p x xs ys is.links m in
          let f = facts x b.2 b.1 apart in
          (
            λ e. kept x b.2 ∙ f.1 e,
            λ e. kept x b.2 ∙ f.2 e (let ne = head_or-ne x ys b.1 b.0 in ground arith),
          ))

  low : p ≢ last_or null xs
  low =
      last_or-ne p xs (Chain-at w.members g null p xs ys is.links).0
        (Chain-at w.members g null p xs ys is.links).4

  high : p ≢ head_or null ys
  high =
      head_or-ne p ys (Chain-at w.members g null p xs ys is.links).0
        (Chain-at w.members g null p xs ys is.links).5

  -- `leaveGroup` behind the links, where the group is not empty.
  abbrev final : Groups
  final = forget_group p (left g p (last_or null xs) (head_or null ys) w)

  final_first : (final.groups g).first ≡ head_or null (xs ++ ys)
  final_first = left_first g p (last_or null xs) (head_or null ys) w low high ∙ go xs is
    where
      go :
          (xs : List Ptr)
          → IsGroup w g (xs ++ p ∷ ys)
          → (if last_or null xs == null then head_or null ys else (w.groups g).first)
            ≡ head_or null (xs ++ ys)
      go [] is = ground arith
      go (x ∷ l) is =
          let b =
            Chain-apart w.members g null p (last_or x l) (x ∷ l) ys is.links (mem-last_or x l) in
          ground (arith, b.1, is.first)

  final_last : (final.groups g).last ≡ last_or null (xs ++ ys)
  final_last = left_last g p (last_or null xs) (head_or null ys) w low high ∙ go ys is
    where
      go :
          (ys : List Ptr)
          → IsGroup w g (xs ++ p ∷ ys)
          → (if head_or null ys == null then last_or null xs else (w.groups g).last)
            ≡ last_or null (xs ++ ys)
      go [] is = ap (last_or null) (sym (append_nil xs))
      go (y ∷ l) is =
          let b = Chain-behind w.members g null p y xs (y ∷ l) is.links (ground arith) in
          ground (arith, b.0, is.last, last_or-append null p xs (y ∷ l), last_or-append null y xs l)

  -- On a group of the processes `xs`, `p` and `ys`, where `xs` and `ys` are not both empty, `leaveGroup`
  -- of `p` leaves `xs` and then `ys` linked both ways, and `p` in no group.
  pub leave_group-LeftGroup :
      (fuel : ℕ)
      → g ≢ null
      → (w' : Groups) × (leave_group fuel p w ≡ done w') × LeftGroup w w' g p xs ys
  unfolding leave_group
  leave_group-LeftGroup fuel some_group =
      let at = Chain-at w.members g null p xs ys is.links in
      let moved =
        leave_members-left g p (last_or null xs) (head_or null ys) w low high at.3 at.1 at.2 in
      let body : Ptr → Groups → Run Groups = λ h v.
        let u = unlink_group h v in
        if h == null
        then done w
        else if ((v.groups h).first == null) && ((v.groups h).last == null)
        then delete_group p h u (rb_delete fuel (u.groups h).pgid u.tree)
        else done (forget_group p v) in
      let not_null : (g == null) ≡ false = ground arith in
      let used : (((left g p (last_or null xs) (head_or null ys) w).groups g).first == null)
          ≡ false =
        ground (arith, final_first, some_left) in
      (
        final,
        ap (λ h. body h (leave_members p w)) at.3 ∙ ap (body g) moved ∙ rw (not_null, used) refl,
        record {
          is_group = record { first = final_first; last = final_last; links = left-Chain };
          group = ground arith;
          links = (ground arith, ground arith);
        },
      )
