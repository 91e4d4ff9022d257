-- ===== src/Async/Frame/Unwind.antt =====
-- What a caller gets from the coroutine that it awaited.
use co_net.Base.{◌∙◌, ℕ, ◌≡◌, refl, none, some, arith, ==_self}
use co_net.Async.Frame.{
  Promise, Frames, put, terminate, raw, holds, value, rethrown, undefined, await_resume, result,
  return_value, unhandled_exception, final_suspend, move_out_result, take_value, construct_result,
}

module _ {C E A : Type 0} (callee : ℕ) where
  put_self : (p : Promise C E A) (fs : Frames C E A) → put callee p fs callee ≡ some p
  put_self p fs = rw (==_self callee) refl

  await_resume-ok :
      (fs : Frames C E A) (p : Promise C E A)
      → fs callee ≡ some p
      → await_resume callee fs ≡ some ((result p).0, put callee (result p).1 fs)
  unfolding await_resume
  await_resume-ok fs p e = rw (e, await_resume) refl

  result-value :
      (p : Promise C E A) (v : A)
      → p.exp ≡ none
      → p.res ≡ holds v
      → result p ≡ (value v, record p { res = raw })
  unfolding result move_out_result take_value
  result-value p v e h = ground arith

  result-raw : (p : Promise C E A) → p.exp ≡ none → p.res ≡ raw → result p ≡ (undefined, p)
  unfolding result move_out_result take_value
  result-raw p e h = ground arith

  module _ (fs : Frames C E A) (p : Promise C E A) where
    abbrev pub returned_frames : A → Frames C E A
    returned_frames v = put callee (return_value v p) fs

    -- A callee that has no exception and returns a value: the first resumption of its caller gets
    -- the value, and a second one would read raw storage.
    pub return-await_resume :
        (v : A)
        → p.exp ≡ none
        → (gs : Frames C E A) × (await_resume callee (returned_frames v) ≡ some (value v, gs))
          × (await_resume callee gs ≡ some (undefined, put callee (record p { res = raw }) gs))
    unfolding return_value construct_result
    return-await_resume v e =
        let q : Promise C E A = record p { res = holds v } in
        let q' : Promise C E A = record p { res = raw } in
        let first = result-value q v e refl in
        let second = result-raw q' e refl in
        (
          put callee q' (returned_frames v),
          await_resume-ok (returned_frames v) q (put_self q fs) ∙ rw first refl,
          await_resume-ok (put callee q' (returned_frames v)) q' (put_self q' (returned_frames v))
              ∙ rw second refl,
        )

    -- A callee that ends by an exception: the resumption of its caller throws it again, and where
    -- it has no caller its end terminates the program.
    pub throw-await_resume :
        (x : E)
        → ((gs : Frames C E A) × (await_resume callee (put callee (unhandled_exception x p) fs)
              ≡ some (rethrown x, gs)))
          × (p.caller ≡ none → final_suspend (unhandled_exception x p) ≡ terminate)
    unfolding result unhandled_exception final_suspend
    throw-await_resume x = (
      (
        _,
        await_resume-ok (put callee (unhandled_exception x p) fs) (unhandled_exception x p)
            (put_self (unhandled_exception x p) fs),
      ),
      λ e. rw (e, final_suspend) refl,
    )
