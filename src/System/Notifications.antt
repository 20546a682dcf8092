-- ===== src/System/Notifications.antt =====
-- How long a notification of zenith-extension/webview-ui/src/stores/useSystemStore.ts is shown.
use zenith_extension.Prelude.{
  ◌≡◌, refl, ap, ◌∙◌, Bool, false, not, ◌||◌, ◌&&◌, List, [], ◌∷◌, push, arith,
}
use zenith_extension.Prelude.Text.{Text, text_eq, text_eq_iff}
use zenith_extension.System.{
  State, Notification, Event, add_notification, remove_notification, expired, without, run,
}

unfoldable pub is_shown : Text → List Notification → Bool
is_shown id [] = false
is_shown id (n ∷ ns) = text_eq n.id id || is_shown id ns

-- Whether a notification is shown after more events, from whether it was.
unfoldable pub shown_after : Text → Bool → List Event → Bool
shown_after id shown [] = shown
shown_after id shown (add_notification j level message ∷ es) =
    shown_after id (shown || text_eq j id) es
shown_after id shown (remove_notification j ∷ es) = shown_after id (shown && not (text_eq j id)) es
shown_after id shown (expired j ∷ es) = shown_after id (shown && not (text_eq j id)) es
shown_after id shown (e ∷ es) = shown_after id shown es

is_shown-push :
    (id : Text) (n : Notification) (ns : List Notification)
    → is_shown id (push ns n) ≡ (is_shown id ns || text_eq n.id id)
unfolding is_shown
is_shown-push id n [] = ground arith
is_shown-push id n (m ∷ ns) = ground (arith, is_shown-push id n ns)

is_shown-without :
    (id j : Text) (ns : List Notification)
    → is_shown id (without j ns) ≡ (is_shown id ns && not (text_eq j id))
unfolding is_shown without
is_shown-without id j [] = refl
is_shown-without id j (n ∷ ns) =
    ground
      (arith, text_eq_iff n.id j, text_eq_iff n.id id, text_eq_iff j id, is_shown-without id j ns)

-- After any run a notification is shown if it was added, or shown before, and neither removed nor
-- expired since; no other event matters.
pub is_shown-run :
    (id : Text) (es : List Event) (s : State)
    → is_shown id (run es s).notifications ≡ shown_after id (is_shown id s.notifications) es
unfolding run shown_after
is_shown-run id [] s = refl
is_shown-run id (add_notification j level message ∷ es) s =
    is_shown-run id es _ ∙ ap (λ b. shown_after id b es) (is_shown-push id _ s.notifications)
is_shown-run id (remove_notification j ∷ es) s =
    is_shown-run id es _ ∙ ap (λ b. shown_after id b es) (is_shown-without id j s.notifications)
is_shown-run id (expired j ∷ es) s =
    is_shown-run id es _ ∙ ap (λ b. shown_after id b es) (is_shown-without id j s.notifications)
is_shown-run id (e ∷ es) s = is_shown-run id es _
