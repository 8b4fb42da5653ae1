-- ===== src/Tests/Events.antt =====
-- internal/domain/image/events.go: a stream of two events, and the instance of its theorem.
use golang_helloworld.Prelude.{List, [], arith, refl, suc, true, ℕ, ◌∷◌, ◌≡◌}
use golang_helloworld.Text.{bytes, str_eq}
use golang_helloworld.Domain.Events.{
  DomainEvent, add_all, filter_by_time_range, is_valid, new_domain_event, new_event_stream,
}
use golang_helloworld.Domain.Events.Span.{IsStream, add_all-IsStream}

abbrev viewed_at : ℕ → DomainEvent ℕ
viewed_at t = new_domain_event (bytes "e") t (bytes "image.viewed") (bytes "image_7") [] []

abbrev two_views : List (DomainEvent ℕ)
two_views = viewed_at 9 ∷ viewed_at 4 ∷ []

viewed_at_valid : (t : ℕ) → is_valid (viewed_at (suc t)) ≡ true
unfolding is_valid str_eq
viewed_at_valid t = ground arith

first_view : (add_all (new_event_stream ℕ) two_views).from ≡ 4
first_view = refl

-- The bounds of the range are not in it.
inner_views : filter_by_time_range (add_all (new_event_stream ℕ) two_views) 4 10 ≡ viewed_at 9 ∷ []
inner_views = refl

add_all-IsStream_example :
    IsStream (add_all (new_event_stream ℕ) two_views)
    × ((add_all (new_event_stream ℕ) two_views).events ≡ two_views)
add_all-IsStream_example =
    add_all-IsStream (new_event_stream ℕ) two_views (refl, (refl, refl))
      (viewed_at_valid 8, (viewed_at_valid 3, tt))
