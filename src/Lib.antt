-- ===== src/Lib.antt =====
-- Verification of meet-bot-go, a bot that joins a Google Meet call, records it with ffmpeg, uploads the
-- recording and reports by webhook. A session is one bot-worker process. Its state machine drives the
-- browser, the meeting provider, the recorder and the webhook sender; an HTTP server and a Redis
-- channel change the shared meeting context while it runs. An API server stores bots in PostgreSQL, and
-- a controller takes them off a queue and starts the workers.
--
-- Bot models a session:
--   Bot.Types and Bot.Context are internal/usecase/bot/types.go. Every locked setter is a function.
--   Bot.World has the outside of a session. A Script is what the collaborators answer to one Execute,
--     and what other goroutines ask while it runs; a log keeps the calls of the collaborators, with the errors of a
--     launch and of a start. Requests
--     are served at marked places: before the state reads the context, and while it waits for a call.
--     A field that is written without the mutex is written at once.
--   Bot.Requests is RequestStop of internal/usecase/bot/machine.go with the adapters and the command
--     loop of internal/app/botworker.go.
--   Bot.Polling is the loop that recording.go and paused.go share. A loop takes its rounds from the
--     script, and `none` is a loop that still runs when the rounds are used up.
--   Bot.States has one function for each Execute of internal/usecase/bot/states: Setup for
--     initialization.go, waiting_room.go and in_call.go, Recording for recording.go, Paused for
--     paused.go, and Closing for error.go, cleanup.go and terminated.go. Their map is registry.go.
--   Bot.Machine is Run of machine.go over any map of states, one step for each round of its loop, with
--     the list of rounds as its fuel: a run that needs more of them is `running`.
-- Retry is internal/pkg/retry/retry.go. The sleep, the function and the product of a delay with the
--   multiplier are parameters. The fuel is the number of attempts, which the source bounds too.
-- Webhook is internal/infra/webhook/sender.go: the breaker as operations under the mutex in any order,
--   and Send run alone. The fuel is the three rounds of its loop. Webhook.Payloads is types.go.
-- Idempotency is internal/api/http/middleware/idempotency.go with the statements of
--   internal/infra/storage/postgres/idempotency_repo.go on a table that is a function of its key. The
--   hash and the JSON cast of PostgreSQL are parameters. Requests come one after the other, and in
--   Idempotency.Concurrent they interleave, a statement or a handler at a time, by any schedule.
-- Config is internal/config/validator.go and the masking of internal/config/config.go, with
--   strings.TrimSpace as a parameter.
-- Meeting models what the bot reads off a meeting's page, and its URL:
--   Meeting.Detector is internal/infra/meeting/state_detector.go over a page that is a parameter.
--   Meeting.Meet is internal/infra/meeting/meet/join.go with state_config.go, selectors.go and
--     FindEndMeeting of provider.go. A page answers by selector; the rounds of the loop are given, and
--     a loop that needs more of them is `none`. Meeting.Meet.Sessions composes it with Bot.
--   Meeting.Dialogs is internal/infra/dialog/observer.go: its operations in any order, with the contexts
--     of its loops, and one cycle over the answers of a screen.
--   Meeting.Urls is detect_provider.go, url_parser.go and meet/url_parser.go of internal/infra/meeting,
--     and Meeting.Urls.Teams is teams/url_parser.go. What they call of Go's library is a parameter, but
--     for the slices and prefixes of texts.
-- Speaker is internal/infra/speaker/manager.go. A channel is a numbered buffer; Push is in its two parts,
--   under the mutex and behind it, so that a cancel can run in between.
-- Controller is internal/app/controller.go with the consumer of internal/infra/queue/redis_stream.go. The
--   rounds of its loop and the ends of its workers come in any order. The stream is the messages that
--   were never delivered and the ids of those that are pending.
-- Api is the server that takes the orders:
--   Api is internal/api/http/respond/respond.go.
--   Api.Bots has the data and the checks of internal/api/http/v2/bots.go, Api.Bots.Handler its
--     handleCreate call by call on tables, a stream and the keys of Redis, and Api.Bots.Commands its
--     other handlers. The job's configuration is read by the worker as Config has it.
--   Api.Access and Api.Access.Auth are internal/api/http/middleware/auth.go, Api.Access.Limits is
--     rate_limit.go. A text that the code reads byte by byte is a list of bytes. The buffer of
--     formatInt32 bounds its loop: 12 bytes, of which a positive int32 needs 10. Api.Access.Keys is
--     api_key_repo.go of internal/infra/storage/postgres on a list of rows, with events at instants.
--   Api.Legacy is the handlers of /v1 in internal/app/apiserver.go; Api.Legacy.Tenants has the bots of
--     both versions in one table. Api.Control is the commands of the worker's own server,
--     stop_record.go and pause_resume.go of internal/api/http.
--   Api.Server composes the endpoints of internal/api/http/v2/router.go with the middlewares as
--     buildRouter of internal/app/apiserver.go does, with recover.go of internal/api/http/middleware.
--     The handlers are a parameter, with data of theirs. Api.Server.Wiring is NewAPIServer.
-- Worker is the bot's process, internal/app/botworker.go: it wires Bot from a configuration and runs it.
--   Worker.Commands is its Redis loop, and Worker.Uploads internal/infra/storage/s3/client.go.
-- Browser is internal/infra/browser/playwright_driver.go with launch_args.go, and Meeting.Meet.Opening
--   and Meeting.Meet.Observing are open_page.go, close.go, html_cleaner.go and the Go side of
--   audio_capture.go and speakers_observer.go of internal/infra/meeting/meet. What Playwright answers is
--   an argument, and each of them keeps what it was asked. The retries of a page are bounded by three.
-- Recorder is internal/infra/recorder/recorder.go with ffmpeg_builder.go; the operating system is its
--   parameter. Recorder.Offset and Recorder.Finalize are offset.go and finalize.go: a command is answered
--   by what was run before it, and floating-point numbers are a record of operations.
-- Base has the names, tests, lists and 64-bit words that the others share, and Tests runs sessions and
-- calls on concrete values.
--
-- Not modelled: the scripts in the meeting's page, which are JavaScript; the Redis and PostgreSQL
-- clients, the sinks of the log and the entry points, which are I/O; and HandleUsage, whose answer is a
-- query.
pub mod Api
pub mod Base
pub mod Bot
pub mod Config
pub mod Controller
pub mod Idempotency
pub mod Meeting
pub mod Recorder
pub mod Retry
pub mod Speaker
pub mod Tests
pub mod Webhook
pub mod Worker
pub mod Browser
