-- ===== src/Tests/Topics.antt =====
-- The topic registry of src/eventqueue.cpp with two topics.
use message_center_cpp.Common.{◌≡◌, refl}
use message_center_cpp.Common.Int.{pos, negsuc}
use message_center_cpp.Common.Maps.{lookup, insert}
use message_center_cpp.EventQueue.Topics.{
  Topics, init, register, add_topic, resolve, get_topic_by_id,
}
use message_center_cpp.EventQueue.Topics.Invariant.{IsValid, init-IsValid, register-IsValid}

abbrev pub two_topics : Topics
two_topics = (register (register init "video").1 "audio").1

pub two_topics-IsValid : IsValid two_topics
two_topics-IsValid = register-IsValid "audio" (register-IsValid "video" init-IsValid)

audio_is_one : resolve two_topics "audio" ≡ pos 1
unfolding resolve register init lookup add_topic insert
audio_is_one = refl

unknown_topic : resolve two_topics "input" ≡ negsuc 0
unfolding resolve register init lookup add_topic insert
unknown_topic = refl

name_of_audio : get_topic_by_id two_topics (pos 1) ≡ "audio"
unfolding get_topic_by_id register init lookup add_topic insert
name_of_audio = refl

name_of_video : get_topic_by_id two_topics (pos 0) ≡ ""
unfolding get_topic_by_id register init lookup add_topic insert
name_of_video = refl

register-IsValid_example : IsValid (register two_topics "input").1
register-IsValid_example = register-IsValid "input" two_topics-IsValid
