-- ===== src/Cuktech/Manager/Worker/Affected.antt =====
-- manager.py: the ports that a report has the worker poll, and the numbers that state.py learns from it.
